-- ===== src/Server/Silent.antt =====
-- A service of cmd/nanomdm/main.go that has no dumper in front of it.
use nanomdm.Common.{String, ◌≡◌, refl, ap, none, some, inl, inr, Bool-cases}
use nanomdm.Common.Fault.{Error, Result, ok, err, wrap}
use nanomdm.Common.Exec.{lift, map_error, ◌>>=◌}
use nanomdm.Mdm.Enroll.{Request}
use nanomdm.Mdm.Checkin
use nanomdm.Mdm.Checkin.{Plist, decode_checkin, validate_get_token}
use nanomdm.Mdm.Command.{CommandResults, decode_command_results}
use nanomdm.Service.{CheckinAndCommandService}
use nanomdm.Service.Dispatch.{
  Marshal, dispatch, dispatch_decoded, checkin_request, report_decoded, raw_command,
  marshal_response, command_and_report_results_request,
}
use nanomdm.Service.Dump.{Written}
use nanomdm.Service.Dump.Laws.{
  without_log, Mirrors, checkin_request-dump, command_and_report_results_request-dump,
}
use nanomdm.CertAuth.{cert_auth}
use nanomdm.Server.{Flags, Parts, silent, mdm_service, with_cert_auth}

module _ {S : Type 0} where
  -- the outcome of a call that writes nothing to stdout
  abbrev unlogged :
      {A : Type 0} → Written → Result A × (Request × S) → Result A × (Request × (Written × S))
  unlogged log (r, (q, s)) = (r, (q, (log, s)))

  module _ {A B : Type 0} (f : Error → Error) (k : A → Result B) (log : Written) where
    forwarded :
        (out : Result A × (Request × S))
        → without_log (
            (map_error f (λ (z : Request × (Written × S)). unlogged log out) >>= λ a. lift (k a))
              (unlogged log out).1)
          ≡ (map_error f (λ (z : Request × S). out) >>= λ a. lift (k a)) out.1
    forwarded (ok a, (q, s)) = refl
    forwarded (err e, (q, s)) = refl

  module _ {A : Type 0} (f : Error → Error) (log : Written) where
    passed :
        (out : Result A × (Request × S))
        → without_log
            (map_error f (λ (z : Request × (Written × S)). unlogged log out) (unlogged log out).1)
          ≡ map_error f (λ (z : Request × S). out) out.1
    passed (ok a, (q, s)) = refl
    passed (err e, (q, s)) = refl

module _ {S : Type 0} (svc : CheckinAndCommandService S) (ms : Marshal) where
  dispatch-Mirrors :
      (m : Checkin.Checkin) → Mirrors (dispatch (silent svc) ms m) (dispatch svc ms m)
  unfolding dispatch silent
  dispatch-Mirrors (Checkin.authenticate m) q log s =
      forwarded (wrap "authenticate service") (λ u. ok none) log (svc.authenticate m (q, s))
  dispatch-Mirrors (Checkin.token_update m) q log s =
      forwarded (wrap "tokenupdate service") (λ u. ok none) log (svc.token_update m (q, s))
  dispatch-Mirrors (Checkin.check_out m) q log s =
      forwarded (wrap "checkout service") (λ u. ok none) log (svc.check_out m (q, s))
  dispatch-Mirrors (Checkin.set_bootstrap_token m) q log s =
      forwarded (wrap "setbootstraptoken service") (λ u. ok none) log
        (svc.set_bootstrap_token m (q, s))
  dispatch-Mirrors (Checkin.user_authenticate m) q log s = refl
  dispatch-Mirrors (Checkin.get_bootstrap_token m) q log s =
      forwarded (wrap "getbootstraptoken service") _ log (svc.get_bootstrap_token m (q, s))
  dispatch-Mirrors (Checkin.declarative_management m) q log s =
      passed (wrap "declarativemanagement service") log (svc.declarative_management m (q, s))
  dispatch-Mirrors (Checkin.get_token m) q log s = validated (validate_get_token (some m)) refl
    where
      validated :
          (v : Result (Unit {0}))
          → validate_get_token (some m) ≡ v
          → without_log (dispatch (silent svc) ms (Checkin.get_token m) (q, (log, s)))
            ≡ dispatch svc ms (Checkin.get_token m) (q, s)
      validated (err x) e = rw e refl
      validated (ok u) e = rw e (
          forwarded (wrap "gettoken service") (λ resp. marshal_response ms resp) log
            (svc.get_token m (q, s)))

  pub silent-checkin :
      (p : Plist) (body : String)
      → Mirrors (checkin_request (silent svc) ms p body) (checkin_request svc ms p body)
  unfolding checkin_request dispatch_decoded
  silent-checkin p body = decoded (decode_checkin p body)
    where
      decoded :
          (r : Result Checkin.Checkin)
          → Mirrors (dispatch_decoded (silent svc) ms r) (dispatch_decoded svc ms r)
      decoded (ok m) q log s = dispatch-Mirrors m q log s
      decoded (err e) q log s = refl

  pub silent-report :
      (unmarshal : String → Result CommandResults) (body : String)
      → Mirrors
          (command_and_report_results_request (silent svc) unmarshal body)
          (command_and_report_results_request svc unmarshal body)
  unfolding command_and_report_results_request report_decoded silent
  silent-report unmarshal body = decoded (decode_command_results unmarshal body)
    where
      decoded :
          (r : Result CommandResults)
          → Mirrors (report_decoded (silent svc) r) (report_decoded svc r)
      decoded (ok m) q log s =
          forwarded (wrap "command and report results service") (λ cmd. ok (raw_command cmd)) log
            (svc.command_and_report_results m (q, s))
      decoded (err e) q log s = refl

module _ {S : Type 0} (p : Parts S) (f : Flags) (svc : CheckinAndCommandService S) where
  abbrev checked : CheckinAndCommandService S
  checked = cert_auth (with_cert_auth p f svc)

  -- With or without the dumper, a check-in has the outcome that it has with the certificate middleware.
  pub mdm_service-checkin :
      (body : String)
      → Mirrors
          (checkin_request (mdm_service p f svc) p.marshal p.plist body)
          (checkin_request checked p.marshal p.plist body)
  unfolding mdm_service
  mdm_service-checkin body q log s = elim (Bool-cases f.dump) [
    | inl t ↦ rw t (checkin_request-dump _ p.marshal p.plist body q log s)
    | inr t ↦ rw t (silent-checkin checked p.marshal p.plist body q log s)
  ]

  -- the same of a command report that decodes
  pub mdm_service-report :
      (body : String) (m : CommandResults) (q : Request) (log : Written) (s : S)
      → decode_command_results p.unmarshal body ≡ ok m
      → without_log
          (command_and_report_results_request (mdm_service p f svc) p.unmarshal body (q, (log, s)))
        ≡ command_and_report_results_request checked p.unmarshal body (q, s)
  unfolding mdm_service
  mdm_service-report body m q log s d = elim (Bool-cases f.dump) [
    | inl t ↦
        rw t
          (ap without_log (command_and_report_results_request-dump _ p.unmarshal body m q log s d))
    | inr t ↦ rw t (silent-report checked p.marshal p.unmarshal body q log s)
  ]
