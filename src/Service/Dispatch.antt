-- ===== src/Service/Dispatch.antt =====
-- service/request.go: the adapters that decode the body of a request and call the service. The
-- plist encoder is a parameter, as the decoder is. A body beside an error is not passed on.
use nanomdm.Common.{String, Option, none, some}
use nanomdm.Common.Fault.{Result, ok, err, fault, wrap, status}
use nanomdm.Common.Exec.{Exec, pure, raise, lift, map_error, ◌>>=◌, ◌>>◌}
use nanomdm.Mdm.Enroll.{Request}
use nanomdm.Mdm.Checkin.{
  Checkin, Plist, BootstrapToken, GetTokenResponse, authenticate, token_update, check_out,
  set_bootstrap_token, get_bootstrap_token, user_authenticate, declarative_management, get_token,
  decode_checkin, validate_get_token,
}
use nanomdm.Mdm.Command.{Command, CommandResults, decode_command_results}
use nanomdm.Service.{CheckinAndCommandService}

-- plist.Marshal of the two types that are sent
pub record Marshal : Type 0 where
  pub bootstrap_token : BootstrapToken → Result String
  pub token_response : GetTokenResponse → Result String

module _ {A : Type 0} where
  -- `fmt.Errorf(text + ": %w", err)` on a result
  wrap_error : String → Result A → Result A
  wrap_error text (ok a) = ok a
  wrap_error text (err e) = err (wrap text e)

marshal_token : Marshal → Option BootstrapToken → Result (Option String)
unfolding wrap_error
marshal_token ms none = ok none
marshal_token ms (some token) = elim (ms.bootstrap_token token) [
  | ok bytes ↦ ok (some bytes)
  | err e ↦ err (wrap "marshal bootstrap token" e)
]

unfoldable pub marshal_response : Marshal → Option GetTokenResponse → Result (Option String)
marshal_response ms none = err (fault "gettoken service: no response")
marshal_response ms (some resp) = elim (ms.token_response resp) [
  | ok bytes ↦ ok (some bytes)
  | err e ↦ err (wrap "gettoken marshal" e)
]

-- `cmd.Raw`, where there is a command
unfoldable pub raw_command : Option Command → Option String
raw_command none = none
raw_command (some cmd) = some cmd.raw

module _ {S : Type 0} (svc : CheckinAndCommandService S) (ms : Marshal) where
  -- the type switch of CheckinRequest
  unfoldable pub dispatch : Checkin → Exec (Request × S) (Option String)
  unfolding marshal_token marshal_response wrap_error
  dispatch (authenticate m) =
      map_error (wrap "authenticate service") (svc.authenticate m) >> pure none
  dispatch (token_update m) =
      map_error (wrap "tokenupdate service") (svc.token_update m) >> pure none
  dispatch (check_out m) = map_error (wrap "checkout service") (svc.check_out m) >> pure none
  dispatch (user_authenticate m) = svc.user_authenticate m
  dispatch (set_bootstrap_token m) =
      map_error (wrap "setbootstraptoken service") (svc.set_bootstrap_token m) >> pure none
  dispatch (get_bootstrap_token m) =
      map_error (wrap "getbootstraptoken service") (svc.get_bootstrap_token m) >>= λ token.
      lift (marshal_token ms token)
  dispatch (declarative_management m) =
      map_error (wrap "declarativemanagement service") (svc.declarative_management m)
  dispatch (get_token m) =
      lift (wrap_error "gettoken validate" (validate_get_token (some m))) >>= λ _.
      map_error (wrap "gettoken service") (svc.get_token m) >>= λ resp.
      lift (marshal_response ms resp)

  unfoldable pub dispatch_decoded : Result Checkin → Exec (Request × S) (Option String)
  dispatch_decoded (ok m) = dispatch m
  dispatch_decoded (err e) = raise (status 400 (wrap "decoding check-in" e))

  -- CheckinRequest
  unfoldable pub checkin_request : Plist → String → Exec (Request × S) (Option String)
  unfolding dispatch_decoded
  checkin_request p body = dispatch_decoded (decode_checkin p body)

module _ {S : Type 0} (svc : CheckinAndCommandService S) where
  unfoldable pub report_decoded : Result CommandResults → Exec (Request × S) (Option String)
  unfolding raw_command
  report_decoded (ok report) =
      map_error (wrap "command and report results service") (svc.command_and_report_results report)
      >>= λ cmd. pure (raw_command cmd)
  report_decoded (err e) = raise (status 400 (wrap "decoding command results" e))

  -- CommandAndReportResultsRequest
  unfoldable pub command_and_report_results_request :
      (String → Result CommandResults) → String → Exec (Request × S) (Option String)
  unfolding report_decoded
  command_and_report_results_request unmarshal body =
      report_decoded (decode_command_results unmarshal body)
