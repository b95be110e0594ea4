-- ===== src/Kv/CommandQueue.antt =====
-- storage/kv/queue.go: command reports, the next command, and enqueueing, over the linked lists.
pub mod Next
pub mod Report
pub mod Outcome
pub mod Delivery
pub mod Session
pub mod Enqueue
pub mod Apart
pub mod Broadcast
pub mod Clearing
pub mod Faults
pub mod Tests
pub mod Defects
use nanomdm.Common.{
  String, ℕ, zero, suc, Bool, true, false, ◌&&◌, Option, none, some, List, [], ◌∷◌, ◌==◌, ◌^^◌,
  if◌then◌else◌, lookup_text,
}
use nanomdm.Common.Fault.{Error, Result, ok, err, fault, wrap, flat, diverged}
use nanomdm.Common.Exec.{Exec, pure, raise, lift, attempt, map_error, beside, ◌>>=◌, ◌>>◌}
use nanomdm.Bucket.{Bucket, ErrorMap}
use nanomdm.Mdm.Enroll.{Enrolled}
use nanomdm.Mdm.Command.{Command, CommandResults}
use nanomdm.Kv.Key.{join}
use nanomdm.Kv.Backend.{Backend, update_last_seen}
use nanomdm.Kv.LinkedQueue.{
  Queue, item_key_name, or_empty, cursor, get_first, get_next, unlink, enqueue, clear,
}

-- newQueue(b, id, primaryQueue)
abbrev pub primary_queue : String → Queue
primary_queue id = record { queue_key = id; name = "queue" }

-- m[key] = err
unfoldable pub note_error : String → Error → ErrorMap → ErrorMap
note_error k e [] = (k, e) ∷ []
note_error k e ((j, d) ∷ m) = if j == k then (k, e) ∷ m else (j, d) ∷ note_error k e m

module _ {S : Type 0} where
  -- `if err := q.enqueue(…); err != nil { errs[cmd.CommandUUID] = … }`
  unfoldable pub noting : String → Result (Unit {0}) → Exec (ErrorMap × S) Unit
  unfolding note_error
  noting uuid (ok _) s = (ok tt, s)
  noting uuid (err e) (errs, s) =
      (ok tt, (note_error uuid (wrap ("enqueue for " ^^ uuid) e) errs, s))

  -- the body of the transaction of `StoreCommandReport`
  unfoldable pub report_body : String → CommandResults → Bucket S → Exec S Unit
  report_body id report b =
      let q = primary_queue id in
      let uuid = report.command_uuid in
      do
        map_error (wrap ("setting command " ^^ uuid)) (
            b.set_map (
              (item_key_name q uuid "report", report.raw)
              ∷ (item_key_name q uuid "status", report.status)
              ∷ []))
        if report.status == "NotNow"
            then pure tt
            else map_error (wrap ("unlink " ^^ uuid)) (unlink b q uuid)

  -- the command whose UUID the loop of `RetrieveNextCommand` has settled on
  unfoldable pub fetch_command : Bucket S → String → Exec S (Option Command)
  fetch_command b uuid = do
    m ←
        map_error (wrap ("retrieving command: " ^^ uuid))
          (b.get_map (join (uuid ∷ "raw" ∷ []) ∷ join (uuid ∷ "req_type" ∷ []) ∷ []))
    pure (
        some (record {
          command_uuid = uuid;
          request_type = lookup_text (join (uuid ∷ "req_type" ∷ [])) m;
          raw = lookup_text (join (uuid ∷ "raw" ∷ [])) m;
        }))

  -- the loop of `RetrieveNextCommand`, from an item that was fetched
  unfoldable pub next_command_from :
      Bucket S → Queue → Bool → ℕ → Result String → Exec S (Option Command)
  next_command_from b q skip_not_now zero fetched = raise diverged
  next_command_from b q skip_not_now (suc fuel) fetched =
      let uuid = cursor fetched in
      let later = attempt (get_next b q uuid) (next_command_from b q skip_not_now fuel) in
      let round = (do
        status ←
            attempt (b.get (item_key_name q uuid "status"))
              λ r. lift (or_empty ("getting command status: " ^^ uuid) r)
        if status == "NotNow" && skip_not_now then later else fetch_command b uuid) in
      if uuid == "" then pure none else round

module _ {S : Type 0} (kv : Backend S) where
  -- StoreCommandReport
  unfoldable pub store_command_report : Enrolled → CommandResults → Exec S Unit
  unfolding update_last_seen report_body
  store_command_report r report = do
    map_error (flat "updating last seen") (update_last_seen kv r none)
    if report.status == "Idle"
        then pure tt
        else if report.command_uuid == ""
        then raise (fault "empty command UUID")
        else kv.queue.txn (report_body r.id report)

  -- RetrieveNextCommand, which works on the bucket outside of a transaction
  unfoldable pub retrieve_next_command : ℕ → Enrolled → Bool → Exec S (Option Command)
  retrieve_next_command fuel r skip_not_now =
      let b = kv.queue.bucket in
      let q = primary_queue r.id in
      attempt (get_first b q) (next_command_from b q skip_not_now fuel)

  -- The loop of `EnqueueCommand` over the IDs. It writes the backend's own bucket, not that of the
  -- transaction around it, and files an error under the command's UUID.
  unfoldable pub enqueue_each : String → List String → Exec (ErrorMap × S) Unit
  unfolding noting
  enqueue_each uuid [] = pure tt
  enqueue_each uuid (id ∷ ids) = do
    attempt (beside (enqueue kv.queue.bucket (primary_queue id) uuid)) (noting uuid)
    enqueue_each uuid ids

  -- the body of the transaction of `EnqueueCommand`
  unfoldable pub enqueue_body : Command → List String → Bucket S → Exec (ErrorMap × S) Unit
  unfolding enqueue_each
  enqueue_body cmd ids b = do
    map_error (wrap ("writing command " ^^ cmd.command_uuid)) (
        beside (
          b.set_map (
            (join (cmd.command_uuid ∷ "raw" ∷ []), cmd.raw)
            ∷ (join (cmd.command_uuid ∷ "req_type" ∷ []), cmd.request_type)
            ∷ [])))
    enqueue_each cmd.command_uuid ids

  -- what `EnqueueCommand` does by the answer of `Has`
  unfoldable pub after_has :
      List String → Command → Result Bool × S → (ErrorMap × Result (Unit {0})) × S
  unfolding enqueue_body
  after_has ids cmd (err e, s) = (([], err e), s)
  after_has ids cmd (ok true, s) =
      (([], err (fault ("command already exists: " ^^ cmd.command_uuid))), s)
  after_has ids cmd (ok false, s) =
      let (r, (errs, s')) = kv.queue.txn_noting (enqueue_body cmd ids) ([], s) in ((errs, r), s')

  -- EnqueueCommand: the map of errors, nil (here empty) where none was made, and the error beside it
  unfoldable pub enqueue_command : List String → Command → S → (ErrorMap × Result (Unit {0})) × S
  unfolding after_has
  enqueue_command ids cmd s =
      after_has ids cmd (kv.queue.has (join (cmd.command_uuid ∷ "raw" ∷ [])) s)

  -- ClearQueue
  unfoldable pub clear_queue : ℕ → Enrolled → Exec S Unit
  clear_queue fuel r = kv.queue.txn (λ b. clear b (primary_queue r.id) fuel)
