-- ===== src/Kv/CommandQueue/Enqueue.antt =====
-- EnqueueCommand of storage/kv/queue.go, for one enrollment.
use nanomdm.Common.{
  String, ◌≡◌, refl, ap, ◌∙◌, ◌≢◌, none, some, List, [], ◌∷◌, ◌++◌, arith, eq_refl, All, ◌^^◌,
}
use nanomdm.Common.Fault.{ok, err, fault}
use nanomdm.Bucket.{Contents, text_at}
use nanomdm.Mdm.Command.{Command}
use nanomdm.Kv.Key.{join}
use nanomdm.Kv.Backend.{Backend}
use nanomdm.Kv.LinkedQueue.{Queue}
use nanomdm.Kv.LinkedQueue.Slots.{next, prev, raw, req_type, slot_key}
use nanomdm.Kv.LinkedQueue.Shape.{Cells, write, IsQueue, Fresh, SameLinks, Links-agree, at_cell}
use nanomdm.Kv.LinkedQueue.Relink.{enqueued, enqueued-IsQueue}
use nanomdm.Kv.LinkedQueue.Runs.{cells, cells-put, enqueue-run}
use nanomdm.Kv.CommandQueue.{
  primary_queue, enqueue_body, enqueue_each, noting, after_has, enqueue_command,
}
use nanomdm.Kv.CommandQueue.Report.{IsReliableBackend}

-- the command's own two keys, written before it is enqueued
abbrev pub written : Command → Cells → Cells
written cmd f =
    write (req_type cmd.command_uuid) cmd.request_type (write (raw cmd.command_uuid) cmd.raw f)

written-SameLinks :
    (f : Cells) (cmd : Command) (ys : List String) → All (SameLinks f (written cmd f)) ys
written-SameLinks f cmd [] = tt
written-SameLinks f cmd (y ∷ ys) = ((refl, refl), written-SameLinks f cmd ys)

pub written-IsQueue :
    (f : Cells) (cmd : Command) (xs : List String) → IsQueue f xs → IsQueue (written cmd f) xs
written-IsQueue f cmd xs h = record {
  first_is = h.first_is;
  last_is = h.last_is;
  links = Links-agree f (written cmd f) "" xs (written-SameLinks f cmd xs) h.links;
  distinct = h.distinct;
}

pub enqueued-written :
    (f : Cells) (cmd : Command)
    → (enqueued cmd.command_uuid (written cmd f) (raw cmd.command_uuid) ≡ cmd.raw)
      × (enqueued cmd.command_uuid (written cmd f) (req_type cmd.command_uuid) ≡ cmd.request_type)
enqueued-written f cmd = ground (arith, eq_refl cmd.command_uuid)

module _ {S : Type 0} (kv : Backend S) (c e : Contents S) (rel : IsReliableBackend kv c e) where
  pub set_command-run :
      (q : Queue) (cmd : Command) (s : S)
      → (t : S) × (kv.queue.bucket.set_map
            ((slot_key q (raw cmd.command_uuid), cmd.raw)
              ∷ (slot_key q (req_type cmd.command_uuid), cmd.request_type)
              ∷ [])
            s
          ≡ (ok tt, t))
        × (cells (text_at c) q t ≡ written cmd (cells (text_at c) q s))
  set_command-run q cmd s =
      let b = kv.queue.bucket in
      let t = c.put (slot_key q (raw cmd.command_uuid)) cmd.raw s in
      (
        c.put (slot_key q (req_type cmd.command_uuid)) cmd.request_type t,
        rel.queue_ok.set_map-eq _ s,
        cells-put b c rel.queue_ok q (req_type cmd.command_uuid) cmd.request_type t
            ∙ ap (write (req_type cmd.command_uuid) cmd.request_type)
                (cells-put b c rel.queue_ok q (raw cmd.command_uuid) cmd.raw s),
      )

  pub enqueue_body-run :
      (id : String) (cmd : Command) (s : S)
      → (u : S) × (enqueue_body kv cmd (id ∷ []) kv.queue.bucket ([], s) ≡ (ok tt, ([], u)))
        × (cells (text_at c) (primary_queue id) u
            ≡ enqueued cmd.command_uuid (written cmd (cells (text_at c) (primary_queue id) s)))
  unfolding enqueue_body enqueue_each noting
  enqueue_body-run id cmd s =
      let q = primary_queue id in
      let (t, et, ct) = set_command-run q cmd s in
      let (u, eu, cu) = enqueue-run kv.queue.bucket c rel.queue_ok q cmd.command_uuid t in
      (u, rw (et, eu) refl, cu ∙ ap (enqueued cmd.command_uuid) ct)

  -- On stores with no faults, enqueueing for one enrollment a command whose UUID is new (not empty,
  -- with no stored command, not in the queue and with no pointers left from an earlier time there)
  -- succeeds with no error for the enrollment. The command stands last in the enrollment's queue,
  -- which is well-formed again, and its bytes and request type are stored.
  enqueue_command-appends :
      (id : String) (cmd : Command) (xs : List String) (s : S)
      → cmd.command_uuid ≢ ""
      → c.find s (slot_key (primary_queue id) (raw cmd.command_uuid)) ≡ none
      → IsQueue (cells (text_at c) (primary_queue id) s) xs
      → Fresh cmd.command_uuid xs
      → cells (text_at c) (primary_queue id) s (next cmd.command_uuid) ≡ ""
      → cells (text_at c) (primary_queue id) s (prev cmd.command_uuid) ≡ ""
      → (s' : S) × (enqueue_command kv (id ∷ []) cmd s ≡ (([], ok tt), s'))
        × IsQueue (cells (text_at c) (primary_queue id) s') (xs ++ (cmd.command_uuid ∷ []))
        × (cells (text_at c) (primary_queue id) s' (raw cmd.command_uuid) ≡ cmd.raw)
        × (cells (text_at c) (primary_queue id) s' (req_type cmd.command_uuid) ≡ cmd.request_type)
  unfolding enqueue_command after_has
  enqueue_command-appends id cmd xs s ne absent h fr n p =
      let q = primary_queue id in
      let f = cells (text_at c) q s in
      let uuid = cmd.command_uuid in
      let (u, run, cu) = enqueue_body-run id cmd s in
      let grown : IsQueue (enqueued uuid (written cmd f)) (xs ++ (uuid ∷ [])) =
        enqueued-IsQueue (written cmd f) uuid xs (written-IsQueue f cmd xs h) ne fr n p in
      (
        u,
        rw
            (
              rel.queue_ok.has-eq (slot_key q (raw uuid)) s,
              absent,
              rel.queue_txn.txn_noting-eq (enqueue_body kv cmd (id ∷ [])) ([], s) ([], u) run,
            )
            refl,
        rw cu grown,
        at_cell _ _ (raw uuid) cu (enqueued-written f cmd).0,
        at_cell _ _ (req_type uuid) cu (enqueued-written f cmd).1,
      )

  -- On stores with no faults, a command whose UUID has a stored command already is refused with an
  -- error, for whatever enrollments, and nothing changes.
  enqueue_command-exists :
      (ids : List String) (cmd : Command) (v : String) (s : S)
      → c.find s (join (cmd.command_uuid ∷ "raw" ∷ [])) ≡ some v
      → enqueue_command kv ids cmd s
        ≡ (([], err (fault ("command already exists: " ^^ cmd.command_uuid))), s)
  unfolding enqueue_command after_has
  enqueue_command-exists ids cmd v s there =
      rw (rel.queue_ok.has-eq (join (cmd.command_uuid ∷ "raw" ∷ [])) s, there) refl
