-- ===== src/CertAuth/Gate.antt =====
-- The middleware of service/certauth under the adapters of service/request.go.
use nanomdm.Common.{String, ◌≡◌, refl, none, some}
use nanomdm.Common.Fault.{Error, Result, ok, err, wrap, status, missing_cert}
use nanomdm.Mdm.Enroll.{Request}
use nanomdm.Mdm.Checkin.{
  Checkin, Plist, authenticate, token_update, check_out, set_bootstrap_token, get_bootstrap_token,
  user_authenticate, declarative_management, get_token, decode_checkin, validate_get_token,
}
use nanomdm.Mdm.Command.{CommandResults, decode_command_results}
use nanomdm.Service.Dispatch.{
  Marshal, dispatch, checkin_request, command_and_report_results_request,
}
use nanomdm.CertAuth.{
  CertAuth, cert_auth, associate_for_new_enrollment, associate_new_enrollment,
  validate_or_associate_for_existing_enrollment, validate_associate_existing_enrollment, guarded,
}
use nanomdm.CertAuth.Safety.{Refuses}

abbrev existing : Error
existing = wrap "cert auth: existing enrollment" missing_cert

module _ {S : Type 0} (a : CertAuth S) (ms : Marshal) (r : Request) (s : S)
    (c : r.certificate ≡ none) where
  closed : Unit {0}
  unfolding dispatch cert_auth associate_for_new_enrollment associate_new_enrollment guarded
      validate_or_associate_for_existing_enrollment validate_associate_existing_enrollment
  closed = tt

  dispatch-Refuses : (m : Checkin) → (x : Error) × Refuses (dispatch (cert_auth a) ms m) (r, s) x
  unfolding closed
  dispatch-Refuses (authenticate m) =
      (wrap "authenticate service" (wrap "cert auth: new enrollment" missing_cert), rw c refl)
  dispatch-Refuses (token_update m) = (wrap "tokenupdate service" existing, rw c refl)
  dispatch-Refuses (check_out m) = (wrap "checkout service" existing, rw c refl)
  dispatch-Refuses (user_authenticate m) = (existing, rw c refl)
  dispatch-Refuses (set_bootstrap_token m) = (wrap "setbootstraptoken service" existing, rw c refl)
  dispatch-Refuses (get_bootstrap_token m) = (wrap "getbootstraptoken service" existing, rw c refl)
  dispatch-Refuses (declarative_management m) =
      (wrap "declarativemanagement service" existing, rw c refl)
  dispatch-Refuses (get_token m) = go (validate_get_token (some m)) refl
    where
      go :
          (v : Result (Unit {0}))
          → validate_get_token (some m) ≡ v
          → (x : Error) × Refuses (dispatch (cert_auth a) ms (get_token m)) (r, s) x
      go (ok u) e = (wrap "gettoken service" existing, rw (e, c) refl)
      go (err y) e = (wrap "gettoken validate" y, rw e refl)

  checkin_refused :
      (p : Plist) (body : String) (d : Result Checkin)
      → decode_checkin p body ≡ d
      → (x : Error) × Refuses (checkin_request (cert_auth a) ms p body) (r, s) x
  unfolding checkin_request
  checkin_refused p body (ok m) e =
      let (x, refused) = dispatch-Refuses m in (x, rw (e, refused) refl)
  checkin_refused p body (err y) e = (status 400 (wrap "decoding check-in" y), rw e refl)

  report_refused :
      (unmarshal : String → Result CommandResults) (body : String) (d : Result CommandResults)
      → decode_command_results unmarshal body ≡ d
      → (x : Error) × Refuses
          (command_and_report_results_request (cert_auth a) unmarshal body)
          (r, s)
          x
  unfolding closed command_and_report_results_request
  report_refused unmarshal body (ok m) e =
      (wrap "command and report results service" existing, rw (e, c) refl)
  report_refused unmarshal body (err y) e =
      (status 400 (wrap "decoding command results" y), rw e refl)

  -- Whatever its body, and whatever the plist decoder and encoder do with it, a request without a
  -- client certificate is answered with an error through both adapters: nothing is stored, and the
  -- request does not change.
  pub requests_missing_cert :
      (p : Plist) (unmarshal : String → Result CommandResults) (body : String)
      → ((x : Error) × Refuses (checkin_request (cert_auth a) ms p body) (r, s) x)
        × ((x : Error) × Refuses
              (command_and_report_results_request (cert_auth a) unmarshal body)
              (r, s)
              x)
  requests_missing_cert p unmarshal body = (
    checkin_refused p body (decode_checkin p body) refl,
    report_refused unmarshal body (decode_command_results unmarshal body) refl,
  )
