-- ===== src/Service/Dump/Laws.antt =====
-- What service/dump/dump.go leaves as it is, and what it writes of a command report.
use nanomdm.Common.{String, ◌≡◌, refl, Option, some, none, [], ◌∷◌, ◌++◌, not, ◌==◌, arith}
use mathlib.Core.List.{append-nil}
use nanomdm.Common.Fault.{Error, Result, ok, err, wrap}
use nanomdm.Common.Exec.{Exec, pure, lift, map_error, ◌>>=◌}
use nanomdm.Mdm.Enroll.{Request}
use nanomdm.Mdm.Checkin
use nanomdm.Mdm.Checkin.{Plist, decode_checkin, validate_get_token}
use nanomdm.Mdm.Command.{Command, CommandResults, decode_command_results}
use nanomdm.Service.Dispatch.{
  Marshal, dispatch, dispatch_decoded, checkin_request, report_decoded, raw_command,
  marshal_response, command_and_report_results_request,
}
use nanomdm.Service.Dump.{
  Dumper, Written, dump, nothing, both, when, command_written, bootstrap_written, token_written,
  dm_written,
}

module _ {S : Type 0} where
  -- the outcome without the log
  abbrev pub without_log :
      {A : Type 0} → Result A × (Request × (Written × S)) → Result A × (Request × S)
  without_log (r, (q, (log, s))) = (r, (q, s))

  -- The outcome is that of the step without a log, whatever was written before.
  abbrev pub Mirrors :
      {A : Type 0} → Exec (Request × (Written × S)) A → Exec (Request × S) A → Type 0
  Mirrors m n = (q : Request) (log : Written) (s : S) → without_log (m (q, (log, s))) ≡ n (q, s)

  -- what `dumping` makes of an outcome
  abbrev logged :
      {A : Type 0}
      → Written
      → (Result A → Written)
      → Result A × (Request × S)
      → Result A × (Request × (Written × S))
  logged log more (r, (q, s)) = (r, (q, (log ++ more r, s)))

  module _ {A B : Type 0} (f : Error → Error) (k : A → Result B) (log : Written)
      (more : Result A → Written) where
    forwarded :
        (out : Result A × (Request × S))
        → without_log (
            (map_error f (λ (z : Request × (Written × S)). logged log more out) >>= λ a. lift (k a))
              (logged log more out).1)
          ≡ (map_error f (λ (z : Request × S). out) >>= λ a. lift (k a)) out.1
    forwarded (ok a, (q, s)) = refl
    forwarded (err e, (q, s)) = refl

  module _ {A : Type 0} (f : Error → Error) (log : Written) (more : Result A → Written) where
    passed :
        (out : Result A × (Request × S))
        → without_log (
            map_error f
              (λ (z : Request × (Written × S)). logged log more out)
              (logged log more out).1)
          ≡ map_error f (λ (z : Request × S). out) out.1
    passed (ok a, (q, s)) = refl
    passed (err e, (q, s)) = refl

module _ {S : Type 0} (d : Dumper S) (ms : Marshal) where
  dispatch-Mirrors : (m : Checkin.Checkin) → Mirrors (dispatch (dump d) ms m) (dispatch d.next ms m)
  unfolding dispatch dump
  dispatch-Mirrors (Checkin.authenticate m) q log s =
      forwarded (wrap "authenticate service") (λ u. ok none) (log ++ (m.raw ∷ [])) (nothing d)
        (d.next.authenticate m (q, s))
  dispatch-Mirrors (Checkin.token_update m) q log s =
      forwarded (wrap "tokenupdate service") (λ u. ok none) (log ++ (m.raw ∷ [])) (nothing d)
        (d.next.token_update m (q, s))
  dispatch-Mirrors (Checkin.check_out m) q log s =
      forwarded (wrap "checkout service") (λ u. ok none) (log ++ (m.raw ∷ [])) (nothing d)
        (d.next.check_out m (q, s))
  dispatch-Mirrors (Checkin.set_bootstrap_token m) q log s =
      forwarded (wrap "setbootstraptoken service") (λ u. ok none) (log ++ (m.raw ∷ [])) (nothing d)
        (d.next.set_bootstrap_token m (q, s))
  dispatch-Mirrors (Checkin.user_authenticate m) q log s = refl
  dispatch-Mirrors (Checkin.get_bootstrap_token m) q log s =
      forwarded (wrap "getbootstraptoken service") _ (log ++ (m.raw ∷ []))
        (λ r. bootstrap_written d (both r)) (d.next.get_bootstrap_token m (q, s))
  dispatch-Mirrors (Checkin.declarative_management m) q log s =
      passed (wrap "declarativemanagement service")
        (log ++ (m.raw ∷ when (not (m.content == "")) m.content)) (λ r. dm_written d (both r))
        (d.next.declarative_management m (q, s))
  dispatch-Mirrors (Checkin.get_token m) q log s = validated (validate_get_token (some m)) refl
    where
      validated :
          (v : Result (Unit {0}))
          → validate_get_token (some m) ≡ v
          → without_log (dispatch (dump d) ms (Checkin.get_token m) (q, (log, s)))
            ≡ dispatch d.next ms (Checkin.get_token m) (q, s)
      validated (err x) e = rw e refl
      validated (ok u) e = rw e (
          forwarded (wrap "gettoken service") (λ resp. marshal_response ms resp)
            (log ++ (m.raw ∷ [])) (λ r. token_written d (both r)) (d.next.get_token m (q, s)))

  decoded-Mirrors :
      (r : Result Checkin.Checkin)
      → Mirrors (dispatch_decoded (dump d) ms r) (dispatch_decoded d.next ms r)
  unfolding dispatch_decoded
  decoded-Mirrors (ok m) q log s = dispatch-Mirrors m q log s
  decoded-Mirrors (err e) q log s = refl

  -- With a dumper in front of a service, a check-in request of any body has the answer, the request and
  -- the store that it has with the service alone.
  pub checkin_request-dump :
      (p : Plist) (body : String) (q : Request) (log : Written) (s : S)
      → without_log (checkin_request (dump d) ms p body (q, (log, s)))
        ≡ checkin_request d.next ms p body (q, s)
  unfolding checkin_request
  checkin_request-dump p body = decoded-Mirrors (decode_checkin p body)

module _ {S : Type 0} (d : Dumper S) where
  command_unwritten : (r : Result (Option Command)) → command_written d (both r) ≡ []
  unfolding command_written both
  command_unwritten (ok none) = refl
  command_unwritten (ok (some cmd)) = ground arith
  command_unwritten (err e) = refl

  abbrev report_service : Exec (Request × S) (Option Command) → Exec (Request × S) (Option String)
  report_service call =
      map_error (wrap "command and report results service") call >>= λ cmd. pure (raw_command cmd)

  report_logged :
      (log : Written) (raw : String) (out : Result (Option Command) × (Request × S))
      → (map_error (wrap "command and report results service") (λ (z : Request × (Written × S)).
              logged (log ++ (raw ∷ [])) (λ r. command_written d (both r)) out)
            >>= λ cmd. pure (raw_command cmd))
          (out.1.0, (log, out.1.1))
        ≡ (let (r, (q, s)) = report_service (λ z. out) out.1 in (r, (q, (log ++ (raw ∷ []), s))))
  report_logged log raw (ok a, (q, s)) = rw (command_unwritten (ok a), append-nil) refl
  report_logged log raw (err e, (q, s)) = rw (command_unwritten (err e), append-nil) refl

  -- With a dumper in front of a service, the request of a command report that decodes has the answer,
  -- the request and the store that it has with the service alone, and only the report is written: the
  -- command that is answered never is, whatever the dumper is set to.
  pub command_and_report_results_request-dump :
      (unmarshal : String → Result CommandResults) (body : String) (report : CommandResults)
      (q : Request) (log : Written) (s : S)
      → decode_command_results unmarshal body ≡ ok report
      → command_and_report_results_request (dump d) unmarshal body (q, (log, s)) ≡ (
          let (r, (q', s')) = command_and_report_results_request d.next unmarshal body (q, s) in
          (r, (q', (log ++ (report.raw ∷ []), s'))))
  unfolding command_and_report_results_request report_decoded dump
  command_and_report_results_request-dump unmarshal body report q log s e =
      rw e (report_logged log report.raw (d.next.command_and_report_results report (q, s)))
