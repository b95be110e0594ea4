-- ===== src/Kv/CommandQueue/Report.antt =====
-- StoreCommandReport of storage/kv/queue.go over a well-formed list.
use mathlib.Core.Path.{fun_ext}
use nanomdm.Common.{
  String, ◌≡◌, refl, ap, ◌∙◌, ◌≢◌, List, [], ◌∷◌, ◌==◌, ◌^^◌, eq_iff, ne_refl, All, if◌then◌else◌,
}
use nanomdm.Common.Fault.{Error, wrap}
use nanomdm.Common.Exec.{Exec, pure, map_error}
use nanomdm.Bucket.{Bucket, Contents, IsReliable, CommitsBody, text_at, text_of}
use nanomdm.Mdm.Enroll.{Enrolled}
use nanomdm.Mdm.Command.{CommandResults}
use nanomdm.Kv.Key.{join}
use nanomdm.Kv.Backend.{Backend, update_last_seen}
use nanomdm.Kv.LinkedQueue.{Queue, unlink}
use nanomdm.Kv.LinkedQueue.Slots.{status, report, slot_key}
use nanomdm.Kv.LinkedQueue.Shape.{Cells, write, IsQueue, SameLinks, Links-agree}
use nanomdm.Kv.LinkedQueue.Relink.{unlinked}
use nanomdm.Kv.LinkedQueue.Runs.{cells, cells-put, unlink-run, Leaves, Leaves-seq, Leaves-if}
use nanomdm.Kv.CommandQueue.{primary_queue, report_body, store_command_report}

-- The backend's stores have no faults, and the enrollments' bucket is not that of the queues.
pub record IsReliableBackend {S : Type 0} (kv : Backend S) (queue enrollments : Contents S)
    : Type 0 where
  pub queue_ok : IsReliable kv.queue.bucket queue
  pub queue_txn : CommitsBody kv.queue
  pub enrollments_ok : IsReliable kv.enrollments.bucket enrollments
  pub apart :
      (k v : String) (s : S) (j : String) → queue.find (enrollments.put k v s) j ≡ queue.find s j

-- what a report writes of itself
abbrev pub reported : CommandResults → Cells → Cells
reported rep f =
    write (status rep.command_uuid) rep.status (write (report rep.command_uuid) rep.raw f)

-- and all that it does to the cells of its queue
abbrev pub after_report : CommandResults → Cells → Cells
after_report rep f =
    if rep.status == "NotNow" then reported rep f else unlinked rep.command_uuid (reported rep f)

module _ {S : Type 0} (b : Bucket S) (c : Contents S) (rel : IsReliable b c) (id : String) where
  set_report-run :
      (f : Error → Error) (rep : CommandResults) (s : S)
      → Leaves b c rel
          (primary_queue id)
          (map_error f (
            b.set_map (
              (slot_key (primary_queue id) (report rep.command_uuid), rep.raw)
              ∷ (slot_key (primary_queue id) (status rep.command_uuid), rep.status)
              ∷ [])))
          s
          (reported rep (cells (text_at c) (primary_queue id) s))
  set_report-run f rep s =
      let q = primary_queue id in
      let t = c.put (slot_key q (report rep.command_uuid)) rep.raw s in
      (
        c.put (slot_key q (status rep.command_uuid)) rep.status t,
        rw rel.set_map-eq refl,
        cells-put b c rel q (status rep.command_uuid) rep.status t
            ∙ ap (write (status rep.command_uuid) rep.status)
                (cells-put b c rel q (report rep.command_uuid) rep.raw s),
      )

  unlink_wrapped :
      (f : Error → Error) (uuid : String) (s : S)
      → Leaves b c rel
          (primary_queue id)
          (map_error f (unlink b (primary_queue id) uuid))
          s
          (unlinked uuid (cells (text_at c) (primary_queue id) s))
  unlink_wrapped f uuid s =
      let (t, e, ct) = unlink-run b c rel (primary_queue id) uuid s in (t, rw e refl, ct)

  report_body-run :
      (rep : CommandResults) (s : S)
      → Leaves b c rel
          (primary_queue id)
          (report_body id rep b)
          s
          (after_report rep (cells (text_at c) (primary_queue id) s))
  unfolding report_body
  report_body-run rep s =
      let q = primary_queue id in
      let uuid = rep.command_uuid in
      let unlinking : Exec S Unit = map_error (wrap ("unlink " ^^ uuid)) (unlink b q uuid) in
      let rest : Exec S Unit = if rep.status == "NotNow" then pure tt else unlinking in
      let writing : Exec S Unit = map_error (wrap ("setting command " ^^ uuid)) (
        b.set_map
          ((slot_key q (report uuid), rep.raw) ∷ (slot_key q (status uuid), rep.status) ∷ [])) in
      Leaves-seq b c rel q writing rest s (reported rep (cells (text_at c) q s))
        (λ g. if rep.status == "NotNow" then g else unlinked uuid g)
        (set_report-run (wrap ("setting command " ^^ uuid)) rep s)
        λ t.
          Leaves-if b c rel q (rep.status == "NotNow") (pure tt) unlinking t (cells (text_at c) q t)
            (unlinked uuid (cells (text_at c) q t)) (t, refl, refl)
            (unlink_wrapped (wrap ("unlink " ^^ uuid)) uuid t)

module _ {S : Type 0} (kv : Backend S) (c e : Contents S) (rel : IsReliableBackend kv c e) where
  -- the time of last contact goes to another bucket
  cells_apart :
      (q : Queue) (k v : String) (s : S) → cells (text_at c) q (e.put k v s) ≡ cells (text_at c) q s
  cells_apart q k v s = fun_ext λ a. ap text_of (rel.apart k v s (slot_key q a))

  -- A report that is neither "Idle" nor without a UUID.
  pub store_command_report-run :
      (r : Enrolled) (rep : CommandResults) (s : S)
      → rep.status ≢ "Idle"
      → rep.command_uuid ≢ ""
      → Leaves kv.queue.bucket c rel.queue_ok
          (primary_queue r.id)
          (store_command_report kv r rep)
          s
          (after_report rep (cells (text_at c) (primary_queue r.id) s))
  unfolding store_command_report update_last_seen
  store_command_report-run r rep s ni nu =
      let q = primary_queue r.id in
      let t = e.put (join (r.id ∷ "last_seen_at" ∷ [])) (kv.now s) s in
      let (u, run, cu) = report_body-run kv.queue.bucket c rel.queue_ok r.id rep t in
      (
        u,
        rw
            (
              rel.enrollments_ok.set-eq (join (r.id ∷ "last_seen_at" ∷ [])) (kv.now s) s,
              ne_refl rep.status "Idle" ni,
              ne_refl rep.command_uuid "" nu,
            )
            (rel.queue_txn.txn-eq (report_body r.id rep) t u run),
        cu ∙ ap (after_report rep) (cells_apart q _ (kv.now s) s),
      )

  -- A report of "Idle".
  pub store_command_report-idle :
      (r : Enrolled) (rep : CommandResults) (s : S)
      → rep.status ≡ "Idle"
      → Leaves kv.queue.bucket c rel.queue_ok
          (primary_queue r.id)
          (store_command_report kv r rep)
          s
          (cells (text_at c) (primary_queue r.id) s)
  unfolding store_command_report update_last_seen
  store_command_report-idle r rep s idle = (
    e.put (join (r.id ∷ "last_seen_at" ∷ [])) (kv.now s) s,
    rw
        (
          rel.enrollments_ok.set-eq (join (r.id ∷ "last_seen_at" ∷ [])) (kv.now s) s,
          (eq_iff rep.status "Idle").1 idle,
        )
        refl,
    cells_apart (primary_queue r.id) _ (kv.now s) s,
  )

reported-SameLinks :
    (f : Cells) (rep : CommandResults) (ys : List String) → All (SameLinks f (reported rep f)) ys
reported-SameLinks f rep [] = tt
reported-SameLinks f rep (y ∷ ys) = ((refl, refl), reported-SameLinks f rep ys)

-- Writing a report leaves the links of its queue.
pub reported-IsQueue :
    (f : Cells) (rep : CommandResults) (xs : List String)
    → IsQueue f xs
    → IsQueue (reported rep f) xs
reported-IsQueue f rep xs h = record {
  first_is = h.first_is;
  last_is = h.last_is;
  links = Links-agree f (reported rep f) "" xs (reported-SameLinks f rep xs) h.links;
  distinct = h.distinct;
}
