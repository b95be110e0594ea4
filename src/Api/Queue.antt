-- ===== src/Api/Queue.antt =====
-- The code that api/api.go answers where enqueues of the key-value backend fail.
use nanomdm.Common.{
  ℕ, suc, String, ◌≡◌, refl, true, false, Option, none, some, List, [], ◌∷◌, arith, length, eq_refl,
  eqb, ltb, ◌^^◌, map,
}
use nanomdm.Common.Fault.{Error, Result, ok, err, wrap, is_not_found}
use nanomdm.Common.GoMap.{GoMap}
use nanomdm.Bucket.{ErrorMap, CommitsBody}
use nanomdm.Mdm.Command.{Command}
use nanomdm.Kv.Key.{join}
use nanomdm.Kv.Backend.{Backend}
use nanomdm.Kv.LinkedQueue.{get_last, enqueue, queue_key_name}
use nanomdm.Kv.CommandQueue.{
  primary_queue, noting, note_error, enqueue_each, enqueue_body, after_has, enqueue_command,
}
use nanomdm.Api.{
  ApiResult, start, no_result, CommandEnqueuer, PushEnqueuer, code, do_enqueue, enqueue_step,
  push_step, is_nil, enqueue_with_push,
}

abbrev pub entries_of : ErrorMap → GoMap (Option Error)
entries_of [] = []
entries_of ((k, e) ∷ m) = (k, some e) ∷ entries_of m

more_than_one : (n : ℕ) → (eqb 1 (suc (suc n)) ≡ false) × (ltb 1 (suc (suc n)) ≡ true)
more_than_one n = (ground arith, ground arith)

abbrev pub error_part : Result (Unit {0}) → Option Error
error_part (ok u) = none
error_part (err e) = some e

module _ {S : Type 0} (kv : Backend S) where
  -- the backend as the store of the API
  abbrev pub enqueuer : CommandEnqueuer S
  enqueuer ids cmd s =
      let ((errs, r), s') = enqueue_command kv ids cmd s in ((entries_of errs, error_part r), s')

  abbrev pub push_enqueuer : PushEnqueuer S
  push_enqueuer = record { store = some enqueuer; pusher = none; no_push = true }

  module _ (x : Error) (other : is_not_found x ≡ false)
      (fails : (k : String) (s : S) → kv.queue.bucket.get k s ≡ (err x, s)) where
    abbrev noted : String → Error
    noted uuid = wrap ("enqueue for " ^^ uuid) (wrap "queue get last" x)

    each_fails :
        (uuid : String) (ids : List String) (s : S)
        → enqueue_each kv uuid ids ((uuid, noted uuid) ∷ [], s)
          ≡ (ok tt, ((uuid, noted uuid) ∷ [], s))
    unfolding enqueue_each noting note_error enqueue get_last
    each_fails uuid [] s = refl
    each_fails uuid (id ∷ ids) s =
        rw
          (
            fails (queue_key_name (primary_queue id) "last") s,
            other,
            eq_refl uuid,
            each_fails uuid ids s,
          )
          refl

    enqueue_each-fails :
        (uuid id : String) (ids : List String) (s : S)
        → enqueue_each kv uuid (id ∷ ids) ([], s) ≡ (ok tt, ((uuid, noted uuid) ∷ [], s))
    unfolding enqueue_each noting note_error enqueue get_last
    enqueue_each-fails uuid id ids s =
        rw (fails (queue_key_name (primary_queue id) "last") s, other, each_fails uuid ids s) refl

    -- Where the key-value backend can write a new command, transactions have the effects of a body
    -- that succeeds, and every read of its queues fails with an error other than a missing key,
    -- EnqueueWithPush of the command, without pushes, for two or more enrollments returns the code
    -- 207 and a result with one entry, whose key is the command's UUID, and leaves the store as
    -- the writing of the command left it.
    pub enqueue_with_push_all_fail :
        (commits : CommitsBody kv.queue) (cmd : Command) (id other_id : String) (ids : List String)
        (s₀ s₁ s : S)
        → kv.queue.has (join (cmd.command_uuid ∷ "raw" ∷ [])) s₀ ≡ (ok false, s₁)
        → kv.queue.bucket.set_map
            ((join (cmd.command_uuid ∷ "raw" ∷ []), cmd.raw)
              ∷ (join (cmd.command_uuid ∷ "req_type" ∷ []), cmd.request_type)
              ∷ [])
            s₁
          ≡ (ok tt, s)
        → (r : ApiResult) × (enqueue_with_push push_enqueuer
              (some cmd)
              (id ∷ other_id ∷ ids)
              true
              s₀
            ≡ ((r, 207, none), s))
          × (map (λ e. e.0) r.status ≡ cmd.command_uuid ∷ [])
    unfolding enqueue_with_push enqueue_step push_step is_nil do_enqueue code enqueue_command
        after_has enqueue_body
    enqueue_with_push_all_fail commits cmd id other_id ids s₀ s₁ s new written =
        let body : enqueue_body kv cmd (id ∷ other_id ∷ ids) kv.queue.bucket ([], s₁)
            ≡ (ok tt, ((cmd.command_uuid, noted cmd.command_uuid) ∷ [], s)) =
          rw (written, enqueue_each-fails cmd.command_uuid id (other_id ∷ ids) s) refl in
        let run =
          commits.txn_noting-eq (enqueue_body kv cmd (id ∷ other_id ∷ ids)) ([], s₁) _ body in
        (
          record (start true) {
            command_uuid = cmd.command_uuid;
            request_type = cmd.request_type;
            status =
                (
                  cmd.command_uuid,
                  record no_result { enqueue_error = some (noted cmd.command_uuid) },
                )
                ∷ [];
          },
          rw (new, run, (more_than_one (length ids)).0, (more_than_one (length ids)).1) refl,
          refl,
        )
