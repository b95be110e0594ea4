-- ===== src/HttpApi/Answers.antt =====
-- What the handlers of http/api/api.go answer.
use nanomdm.Common.{ℕ, String, ◌≡◌, ◌↔◌, ◌⊎◌, Bool, false, ◌||◌, Option, none, some, List, All}
use nanomdm.Common.Fault.{Error, Result, ok, err, wrap, fault, amended}
use nanomdm.Api.{
  ApiResult, PushEnqueuer, CommandEnqueuer, is_error, start, push, raw_command_enqueue_with_push,
}
use nanomdm.Api.Codes.{IsClean}
use nanomdm.Mdm.Command.{Command}
use nanomdm.Push.{Pusher}
use nanomdm.HttpApi.{JsonWriter, api_result, enqueued_result}

-- no error in the result, neither at the top nor of an enrollment
abbrev pub HasNoError : ApiResult → Type 0
HasNoError r = ((is_error r.push_error || is_error r.enqueue_error) ≡ false) × All IsClean r.status

abbrev pub Status : ℕ → Type 0
Status c = (c ≡ 200) ⊎ ((c ≡ 207) ⊎ (c ≡ 500))

-- a code that says of a result whether it has an error
abbrev Says : ℕ → ApiResult → Type 0
Says c r = Status c × ((c ≡ 200) ↔ HasNoError r)

-- a new error before the one that was there
abbrev both : Option Error → Option Error → Option Error
both none previous = previous
both (some e) none = some e
both (some e) (some previous) = some (amended e previous)

abbrev pub with_push_error : Option Error → ApiResult → ApiResult
with_push_error e r = record r { push_error = both e r.push_error }

abbrev pub with_enqueue_error : Option Error → Option ApiResult → ApiResult
with_enqueue_error e none = record (start false) { enqueue_error = e }
with_enqueue_error e (some r) = record r { enqueue_error = both e r.enqueue_error }

-- what is to be written of an answer of api/
abbrev Reported : {S : Type 0} → (Option ApiResult × ℕ × Option Error) × S → Type 0
Reported ((er, c, e), s') =
    (enqueued_result er e ≡ some (with_enqueue_error e er)) × Says c (with_enqueue_error e er)

module _ {S : Type 0} (pe : PushEnqueuer S) where
  some_result : (ApiResult × ℕ × Option Error) × S → (Option ApiResult × ℕ × Option Error) × S
  some_result ((r, c, e), s) = ((some r, c, e), s)

module _ {S : Type 0} (pusher : Pusher S) where
  -- What there is to answer to a push, for the IDs that the request names: a result with its status,
  -- and the store that `push` leaves.
  abbrev pub pushed_outcome : Result (List String) → S → (ApiResult × ℕ) × S
  pushed_outcome (err e) s =
      ((with_push_error (some (wrap "getting enrollment ids" e)) (start false), 500), s)
  pushed_outcome (ok ids) s =
      let pe : PushEnqueuer S = record { store = none; pusher = some pusher; no_push = false } in
      let ((pr, c, e), s') = push pe ids s in ((with_push_error e pr, c), s')

  -- the same for a command, whose body may not be readable
  abbrev pub enqueued_outcome :
      CommandEnqueuer S
      → (String → Result Command)
      → Bool
      → Result (List String)
      → Result String
      → S
      → (ApiResult × ℕ) × S
  enqueued_outcome enqueuer decode no_push (err e) body s =
      ((with_enqueue_error (some (wrap "getting enrollment ids" e)) none, 500), s)
  enqueued_outcome enqueuer decode no_push (ok ids) (err e) s = (
    (
      record (start false) {
        push_error = some (fault "nil API result");
        enqueue_error = some (fault "nil API result");
      },
      500,
    ),
    s,
  )
  enqueued_outcome enqueuer decode no_push (ok ids) (ok body) s =
      let pe : PushEnqueuer S = record {
        store = some enqueuer;
        pusher = some pusher;
        no_push = false;
      } in
      let ((er, c, e), s') = raw_command_enqueue_with_push pe decode body ids no_push s in
      ((with_enqueue_error e er, c), s')

module _ {S : Type 0} (w : JsonWriter S) where
  -- `t` is the state once this result was written with this status, and nothing else: the status is
  -- 200 exactly where the result has no error, and 207 or 500 otherwise.
  abbrev pub Answered : S → (ApiResult × ℕ) × S → Type 0
  Answered t ((r, c), s') =
      (t ≡ w.encode (api_result r) (w.json_header c s')) × Status c × ((c ≡ 200) ↔ HasNoError r)
