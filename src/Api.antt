-- ===== src/Api.antt =====
-- api/: enqueueing commands and sending push notifications to several enrollments, with a code for
-- the outcome. types.go and error.go are the result, do.go the two steps, api.go their combination.
-- Logging is left out.
pub mod Codes
pub mod Queue
pub mod Tests
use nanomdm.Common.{
  ℕ, zero, suc, ◌+◌, String, Bool, true, false, not, ◌&&◌, ◌||◌, Option, none, some, List, [], ◌∷◌,
  ◌==◌, ltb, eqb, length, if◌then◌else◌,
}
use nanomdm.Common.Fault.{Error, Result, ok, err, fault, wrap}
use nanomdm.Common.GoMap.{GoMap, get_or, set}
use nanomdm.Mdm.Command.{Command}
use nanomdm.Push.{Response, Pusher}

-- EnrollmentResult. A pointer to the type `Error`, which wraps an error, is `some` of that error.
pub record EnrollmentResult : Type 0 where
  pub push_error : Option Error
  pub push_id : String
  pub enqueue_error : Option Error

-- APIResult
pub record ApiResult : Type 0 where
  pub status : GoMap EnrollmentResult
  pub no_push : Bool
  pub push_error : Option Error
  pub enqueue_error : Option Error
  pub command_uuid : String
  pub request_type : String

-- storage.CommandEnqueuer. A Go function that returns a map beside an error returns both here.
abbrev pub CommandEnqueuer : Type 0 → Type 0
CommandEnqueuer S = List String → Command → S → (GoMap (Option Error) × Option Error) × S

-- The struct `PushEnqueuer`, without its logger; its store and its pusher may be nil.
pub record PushEnqueuer (S : Type 0) : Type 0 where
  pub store : Option (CommandEnqueuer S)
  pub pusher : Option (Pusher S)
  pub no_push : Bool

abbrev pub is_error : Option Error → Bool
is_error none = false
is_error (some _) = true

abbrev pub no_result : EnrollmentResult
no_result = record { push_error = none; push_id = ""; enqueue_error = none }

-- `if err != nil { field = NewError(err) }`
abbrev or_else : Option Error → Option Error → Option Error
or_else none old = old
or_else (some e) old = some e

-- the loop of doPush over the responses
abbrev pub add_responses : GoMap Response → GoMap EnrollmentResult → GoMap EnrollmentResult
add_responses [] status = status
add_responses ((id, r) ∷ rs) status =
    let er = get_or no_result id status in
    add_responses rs
      (set id (record er { push_id = r.id; push_error = or_else r.error er.push_error }) status)

-- the loop of doEnqueue over the errors
abbrev pub error_of : Option Error → Error
error_of none = fault "unknown enqueue error"
error_of (some e) = e

abbrev pub add_id_errors : GoMap (Option Error) → GoMap EnrollmentResult → GoMap EnrollmentResult
add_id_errors [] status = status
add_id_errors ((id, e) ∷ es) status =
    let er = get_or no_result id status in
    add_id_errors es (set id (record er { enqueue_error = some (error_of e) }) status)

module _ {S : Type 0} where
  -- doPush
  unfoldable pub do_push : Option (Pusher S) → List String → ApiResult → S → ApiResult × S
  do_push none ids r s = (record r { push_error = some (fault "nil pusher") }, s)
  do_push (some push) ids r s =
      let ((pr, e), s') = push ids s in
      (record r { push_error = or_else e r.push_error; status = add_responses pr r.status }, s')

  -- doEnqueue, which is only called with a command
  unfoldable pub do_enqueue :
      Option (CommandEnqueuer S) → Command → List String → ApiResult → S → ApiResult × S
  do_enqueue none cmd ids r s = (
    record r {
      command_uuid = cmd.command_uuid;
      request_type = cmd.request_type;
      enqueue_error = some (fault "nil store");
    },
    s,
  )
  do_enqueue (some enqueue) cmd ids r s =
      let ((id_errs, e), s') = enqueue ids cmd s in
      (
        record r {
          command_uuid = cmd.command_uuid;
          request_type = cmd.request_type;
          enqueue_error = or_else e r.enqueue_error;
          status = add_id_errors id_errs r.status;
        },
        s',
      )

abbrev pub is_failed : EnrollmentResult → Bool
is_failed er = is_error er.push_error || is_error er.enqueue_error

-- the loop of `code`
abbrev pub count_errors : GoMap EnrollmentResult → ℕ
count_errors [] = 0
count_errors ((id, er) ∷ m) = let rest = count_errors m in if is_failed er then suc rest else rest

-- code, of a result that is not nil
unfoldable pub code : ApiResult → ℕ → ℕ
code r id_count =
    let err_ct = count_errors r.status in
    if is_error r.push_error || is_error r.enqueue_error
    then 500
    else if ltb err_ct 1
    then 200
    else if eqb err_ct id_count
    then 500
    else if ltb err_ct id_count
    then 207
    else 500

-- the accumulator that EnqueueWithPush starts from
abbrev pub start : Bool → ApiResult
start no_push = record {
  status = [];
  no_push = no_push;
  push_error = none;
  enqueue_error = none;
  command_uuid = "";
  request_type = "";
}

unfoldable is_nil : Option Command → Bool
is_nil none = true
is_nil (some _) = false

module _ {S : Type 0} (pe : PushEnqueuer S) where
  unfoldable enqueue_step : Option Command → List String → ApiResult → S → ApiResult × S
  enqueue_step none ids r s = (r, s)
  enqueue_step (some cmd) ids r s = do_enqueue pe.store cmd ids r s

  unfoldable push_step : Bool → List String → ApiResult × S → ApiResult × S
  push_step no_push ids (r, s) =
      if not no_push && not pe.no_push && not (is_error r.enqueue_error)
      then do_push pe.pusher ids r s
      else (r, s)

  -- EnqueueWithPush: the result, the code and the error
  unfoldable pub enqueue_with_push :
      Option Command → List String → Bool → S → (ApiResult × ℕ × Option Error) × S
  unfolding is_nil enqueue_step push_step
  enqueue_with_push command ids no_push s =
      let r = start (no_push || pe.no_push) in
      let (done, s') = push_step no_push ids (enqueue_step command ids r s) in
      if is_nil command && no_push
      then ((r, 500, some (fault "must enqueue or push")), s)
      else ((done, code done (length ids), none), s')

  -- Push
  unfoldable pub push : List String → S → (ApiResult × ℕ × Option Error) × S
  push ids s = enqueue_with_push none ids false s

  unfoldable pub decoded_enqueue :
      Result Command → List String → Bool → S → (Option ApiResult × ℕ × Option Error) × S
  decoded_enqueue (ok cmd) ids no_push s =
      let ((r, c, e), s') = enqueue_with_push (some cmd) ids no_push s in ((some r, c, e), s')
  decoded_enqueue (err e) ids no_push s = ((none, 500, some (wrap "decoding command" e)), s)

  -- RawCommandEnqueueWithPush; an empty command is a push alone
  unfoldable pub raw_command_enqueue_with_push :
      (String → Result Command)
      → String
      → List String
      → Bool
      → S
      → (Option ApiResult × ℕ × Option Error) × S
  unfolding decoded_enqueue
  raw_command_enqueue_with_push decode raw ids no_push s =
      if raw == ""
      then (let ((r, c, e), s') = enqueue_with_push none ids no_push s in ((some r, c, e), s'))
      else decoded_enqueue (decode raw) ids no_push s
