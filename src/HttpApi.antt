-- ===== src/HttpApi.antt =====
-- http/api/api.go: the API's HTTP handlers over api/, which answer in JSON. Splitting a path, the texts
-- of errors and the response writer are parameters. The panics on nil arguments are left out, since the
-- handlers are made with what is not nil; logging is too.
pub mod PushCert
pub mod Unlock
pub mod Answers
mod Tests
use nanomdm.Common.{ℕ, String, Bool, false, not, Option, none, some, List, ltb, ◌==◌, if◌then◌else◌}
use nanomdm.Common.Fault.{Error, Result, ok, err, fault, wrap, amended}
use nanomdm.Api.{
  ApiResult, PushEnqueuer, CommandEnqueuer, start, push, raw_command_enqueue_with_push,
}
use nanomdm.Mdm.Command.{Command}
use nanomdm.Push.{Pusher}

-- What the handlers read of an http.Request: its method, its path, `URL.Query().Get` and its body.
pub record ApiRequest : Type 0 where
  pub method : String
  pub path : String
  pub query : String → String
  pub body : Result String

-- what is encoded: an APIResult, an ErrorResponseJson, or a PushCertResponseJson
pub data Json : Type 0 where
  api_result : ApiResult → Json
  error_response : String → Json
  push_cert_response : String → String → Json

-- http.ResponseWriter, with the JSON encoder and http.Error: WriteHeader after the content type is set
-- to JSON (`json_header`) and alone, a header that is added, and what is written behind.
pub record JsonWriter (S : Type 0) : Type 0 where
  pub json_header : ℕ → S → S
  pub encode : Json → S → S
  pub write_header : ℕ → S → S
  pub add_header : String → String → S → S
  pub write_body : String → S → S
  pub error : ℕ → S → S

abbrev pub ApiHandler : Type 0 → Type 0
ApiHandler S = ApiRequest → S → S

-- what is written in place of a nil result
unfoldable pub nil_result : ApiResult
nil_result = record (start false) {
  enqueue_error = some (fault "nil API result");
  push_error = some (fault "nil API result");
}

module _ {S : Type 0} (w : JsonWriter S) where
  -- writeJSON, of a value that is not nil
  unfoldable pub write_json : Json → ℕ → S → S
  write_json v header s = w.encode v (w.json_header (if ltb header 1 then 500 else header) s)

  -- logAndWriteJSONError, of an error that is not nil
  unfoldable pub log_and_write_json_error : (Error → String) → Error → ℕ → S → S
  log_and_write_json_error error_text e header = write_json (error_response (error_text e)) header

  -- writeAPIResult
  unfoldable pub write_api_result : Option ApiResult → ℕ → S → S
  unfolding nil_result
  write_api_result none header = write_json (api_result nil_result) 0
  write_api_result (some r) header = write_json (api_result r) header

-- amendAPIError, of an error that is not nil
unfoldable pub amend_api_error : Error → Option Error → Error
amend_api_error e none = e
amend_api_error e (some previous) = amended e previous

abbrev pub amend_push : Error → ApiResult → ApiResult
amend_push e r = record r { push_error = some (amend_api_error e r.push_error) }

abbrev pub amend_enqueue : Error → ApiResult → ApiResult
amend_enqueue e r = record r { enqueue_error = some (amend_api_error e r.enqueue_error) }

-- PathIDGetter, of strings.Split
unfoldable pub path_id_getter : (String → String → List String) → ApiRequest → Result (List String)
path_id_getter split r = if r.path == "" then err (fault "empty path") else ok (split r.path ",")

-- `if pr == nil { pr = new(api.APIResult) }`
unfoldable or_new : Option ApiResult → ApiResult
or_new none = start false
or_new (some r) = r

-- the result that is written, amended by the error that came with it
unfoldable pushed_result : ApiResult → Option Error → ApiResult
pushed_result r none = r
pushed_result r (some e) = amend_push e r

unfoldable enqueued_result : Option ApiResult → Option Error → Option ApiResult
unfolding or_new
enqueued_result r none = r
enqueued_result r (some e) = some (amend_enqueue e (or_new r))

module _ {S : Type 0} (w : JsonWriter S) (id_getter : ApiRequest → Result (List String)) where
  module _ (pusher : Pusher S) where
    unfoldable push_to_ids : Result (List String) → S → S
    unfolding pushed_result
    push_to_ids (err e) s =
        write_api_result w (some (amend_push (wrap "getting enrollment ids" e) (start false))) 500 s
    push_to_ids (ok ids) s =
        let pe : PushEnqueuer S = record { store = none; pusher = some pusher; no_push = false } in
        let ((pr, header, e), s') = push pe ids s in
        write_api_result w (some (pushed_result pr e)) header s'

    -- PushToIDsHandler
    unfoldable pub push_to_ids_handler : ApiHandler S
    unfolding push_to_ids
    push_to_ids_handler r = push_to_ids (id_getter r)

  module _ (enqueuer : CommandEnqueuer S) (pusher : Option (Pusher S))
      (decode : String → Result Command) where
    -- Where the body cannot be read, `er` is declared anew, so the result that is written is nil.
    unfoldable enqueue_body_to_ids : List String → Bool → Result String → S → S
    unfolding enqueued_result
    enqueue_body_to_ids ids no_push (err e) s = write_api_result w none 500 s
    enqueue_body_to_ids ids no_push (ok body) s =
        let pe : PushEnqueuer S = record {
          store = some enqueuer;
          pusher = pusher;
          no_push = false;
        } in
        let ((er, header, e), s') = raw_command_enqueue_with_push pe decode body ids no_push s in
        write_api_result w (enqueued_result er e) header s'

    unfoldable enqueue_to_ids : ApiRequest → Result (List String) → S → S
    unfolding enqueue_body_to_ids
    enqueue_to_ids r (err e) s =
        write_api_result w (some (amend_enqueue (wrap "getting enrollment ids" e) (start false)))
          500 s
    enqueue_to_ids r (ok ids) s = enqueue_body_to_ids ids (not (r.query "nopush" == "")) r.body s

    -- RawCommandEnqueueToIDsHandler
    unfoldable pub raw_command_enqueue_to_ids_handler : ApiHandler S
    unfolding enqueue_to_ids
    raw_command_enqueue_to_ids_handler r = enqueue_to_ids r (id_getter r)
