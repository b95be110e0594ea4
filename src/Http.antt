-- ===== src/Http.antt =====
-- http/mdm/mdm.go: the HTTP handlers that adapt a request to the MDM service. The state that they work
-- on holds the stores and what was written to the client; net/http is a parameter.
pub mod Extract
pub mod Identity
pub mod Client
pub mod HashBody
pub mod AuthProxy
mod Tests
use Prim.Native.String.{slice, len}
use nanomdm.Common.{ℕ, String, List, [], ◌∷◌, Option, some, none, ◌==◌, if◌then◌else◌}
use nanomdm.Common.Fault.{Error, Result, ok, err, wrap, amended, status, parse_error}
use nanomdm.Mdm.Enroll.{Request, Certificate}
use nanomdm.Mdm.Checkin.{Plist}
use nanomdm.Mdm.Command.{CommandResults}
use nanomdm.Service.{CheckinAndCommandService}
use nanomdm.Service.Dispatch.{Marshal, checkin_request, command_and_report_results_request}

-- What the code reads of an http.Request. `header` is `Header.Get`, `query` is `URL.Query()` with the
-- first value of each key, `body` what reading the body gives, which ReadAllAndReplaceBody puts back.
-- The last two are in its context: the certificate of `contextKeyCert`, and the text of
-- `contextEnrollmentID`, "" where there is none.
pub record HttpRequest : Type 0 where
  pub header : String → String
  pub query : List (String × String)
  pub body : Result String
  pub peer_certificates : Option (List Certificate)
  pub certificate : Option Certificate
  pub enrollment_id : String

-- http.Error and http.StatusText, and Write of the http.ResponseWriter
pub record Writer (S : Type 0) : Type 0 where
  pub error : String → ℕ → S → S
  pub status_text : ℕ → String
  pub write : Option String → S → S

-- http.Handler
abbrev pub Handler : Type 0 → Type 0
Handler S = HttpRequest → S → S

find_param : List (String × String) → String → Option String
find_param [] k = none
find_param ((j, v) ∷ q) k = if j == k then some v else find_param q k

params_of : List (String × String) → Option (String → Option String)
unfolding find_param
params_of [] = none
params_of (x ∷ q) = some (find_param (x ∷ q))

-- RequestFromHTTP
unfoldable pub request_from_http : HttpRequest → Request
unfolding params_of
request_from_http r = record {
  enroll_id = none;
  certificate = r.certificate;
  params = params_of r.query;
}

-- the status of the HTTPStatusError that errors.As finds
unfoldable pub http_status : Error → ℕ
http_status (status code e) = code
http_status (wrap text e) = http_status e
http_status (amended e previous) = http_status e
http_status (parse_error e content) = http_status e
http_status _ = 500

module _ {S : Type 0} (w : Writer S) where
  -- The answer of the service; a body beside an error is not passed on by the adapters' model.
  respond : Result (Option String) × (Request × S) → S
  unfolding http_status
  respond (ok bytes, (q, s)) = w.write bytes s
  respond (err e, (q, s)) = w.write none (w.error (w.status_text (http_status e)) (http_status e) s)

  -- `http.Error(w, http.StatusText(code), code)`
  unfoldable pub fail : ℕ → S → S
  fail code = w.error (w.status_text code) code

  module _ (svc : CheckinAndCommandService S) (ms : Marshal) (p : Plist)
      (unmarshal : String → Result CommandResults) where
    -- CheckinHandler
    unfoldable pub checkin_handler : Handler S
    unfolding respond fail request_from_http
    checkin_handler r s = elim r.body [
      | ok body ↦ respond (checkin_request svc ms p body (request_from_http r, s))
      | err e ↦ fail 500 s
    ]

    -- CommandAndReportResultsHandler
    unfoldable pub command_and_report_results_handler : Handler S
    unfolding respond fail request_from_http
    command_and_report_results_handler r s = elim r.body [
      | ok body ↦
          respond (command_and_report_results_request svc unmarshal body (request_from_http r, s))
      | err e ↦ fail 500 s
    ]

    -- CheckinAndCommandHandler
    unfoldable pub checkin_and_command_handler : Handler S
    checkin_and_command_handler r s =
        let checkin : String = "application/x-apple-aspen-mdm-checkin" in
        if slice (r.header "Content-Type") 0 (len checkin) == checkin
        then checkin_handler r s
        else command_and_report_results_handler r s
