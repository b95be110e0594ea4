-- ===== src/Kv/CommandQueue/Outcome.antt =====
-- What a command report (queue.go, queue_ll.go) makes of the enrollment's queue.
use mathlib.Core.Bool.{false≢true}
use nanomdm.Common.{
  String, ◌≡◌, refl, ◌∙◌, sym, ◌≢◌, ◌⊎◌, inl, inr, true, List, [], ◌∷◌, ◌++◌, arith, ◌==◌, eq_iff,
  eq_refl, ne_refl, Bool-cases,
}
use nanomdm.Common.Fault.{ok}
use nanomdm.Bucket.{Contents, text_at}
use nanomdm.Mdm.Enroll.{Enrolled}
use nanomdm.Mdm.Command.{CommandResults}
use nanomdm.Kv.Backend.{Backend}
use nanomdm.Kv.LinkedQueue.Slots.{next, prev, status, report, raw, req_type}
use nanomdm.Kv.LinkedQueue.Shape.{Cells, IsQueue, Distinct-right, at_cell}
use nanomdm.Kv.LinkedQueue.Relink.{mended, unlinked}
use nanomdm.Kv.LinkedQueue.Unlink.{unlinked-IsQueue}
use nanomdm.Kv.LinkedQueue.Runs.{cells}
use nanomdm.Kv.CommandQueue.{primary_queue, store_command_report}
use nanomdm.Kv.CommandQueue.Report.{
  IsReliableBackend, reported, after_report, store_command_report-run, reported-IsQueue,
}

mended-status : (p n x : String) (f : Cells) → mended p n f (status x) ≡ f (status x)
mended-status p n x f = ground arith

pub unlinked-status : (id x : String) (f : Cells) → unlinked id f (status x) ≡ f (status x)
unlinked-status id x f = mended-status (f (prev id)) (f (next id)) x f

mended-report : (p n x : String) (f : Cells) → mended p n f (report x) ≡ f (report x)
mended-report p n x f = ground arith

pub unlinked-report : (id x : String) (f : Cells) → unlinked id f (report x) ≡ f (report x)
unlinked-report id x f = mended-report (f (prev id)) (f (next id)) x f

mended-raw : (p n x : String) (f : Cells) → mended p n f (raw x) ≡ f (raw x)
mended-raw p n x f = ground arith

pub unlinked-raw : (id x : String) (f : Cells) → unlinked id f (raw x) ≡ f (raw x)
unlinked-raw id x f = mended-raw (f (prev id)) (f (next id)) x f

mended-req_type : (p n x : String) (f : Cells) → mended p n f (req_type x) ≡ f (req_type x)
mended-req_type p n x f = ground arith

pub unlinked-req_type : (id x : String) (f : Cells) → unlinked id f (req_type x) ≡ f (req_type x)
unlinked-req_type id x f = mended-req_type (f (prev id)) (f (next id)) x f

-- what a report leaves of itself, whatever its status
pub after_report-record :
    (rep : CommandResults) (f : Cells)
    → (after_report rep f (status rep.command_uuid) ≡ rep.status)
      × (after_report rep f (report rep.command_uuid) ≡ rep.raw)
after_report-record rep f =
    let id = rep.command_uuid in
    elim (Bool-cases (rep.status == "NotNow")) [
      | inl t ↦ rw t (rw (eq_refl id) refl, rw (eq_refl id) refl)
      | inr n ↦ rw n (
        unlinked-status id id (reported rep f) ∙ rw (eq_refl id) refl,
        unlinked-report id id (reported rep f) ∙ rw (eq_refl id) refl,
      )
    ]

module _ {S : Type 0} (kv : Backend S) (c e : Contents S) (rel : IsReliableBackend kv c e) where
  -- On stores with no faults, a report with a status other than "Idle" and "NotNow", for a command
  -- that stands in the enrollment's well-formed queue as the only one or before another, succeeds.
  -- It takes the command out of the queue, the others keep their order, and the queue is
  -- well-formed again. The status and the raw report of the command are recorded.
  pub store_command_report-removes :
      (r : Enrolled) (rep : CommandResults) (ys zs : List String) (s : S)
      → rep.status ≢ "Idle"
      → rep.status ≢ "NotNow"
      → (zs ≢ []) ⊎ (ys ≡ [])
      → IsQueue (cells (text_at c) (primary_queue r.id) s) (ys ++ (rep.command_uuid ∷ zs))
      → (s' : S) × (store_command_report kv r rep s ≡ (ok tt, s'))
        × IsQueue (cells (text_at c) (primary_queue r.id) s') (ys ++ zs)
        × (cells (text_at c) (primary_queue r.id) s' (status rep.command_uuid) ≡ rep.status)
        × (cells (text_at c) (primary_queue r.id) s' (report rep.command_uuid) ≡ rep.raw)
  store_command_report-removes r rep ys zs s ni nn pos h =
      let q = primary_queue r.id in
      let f = cells (text_at c) q s in
      let uuid = rep.command_uuid in
      let full : uuid ≢ "" = (Distinct-right ys (uuid ∷ zs) h.distinct).0 in
      let (s', run, cs) = store_command_report-run kv c e rel r rep s ni full in
      let left : IsQueue (after_report rep f) (ys ++ zs) = rw (ne_refl rep.status "NotNow" nn) (
        unlinked-IsQueue (reported rep f) uuid ys zs (reported-IsQueue f rep (ys ++ (uuid ∷ zs)) h)
          pos) in
      let record_of = after_report-record rep f in
      (
        s',
        run,
        rw cs left,
        at_cell (cells (text_at c) q s') (after_report rep f) (status uuid) cs record_of.0,
        at_cell (cells (text_at c) q s') (after_report rep f) (report uuid) cs record_of.1,
      )

  -- On stores with no faults, a "NotNow" report for any command leaves the enrollment's well-formed
  -- queue as it is, and records the status.
  store_command_report-not_now :
      (r : Enrolled) (rep : CommandResults) (xs : List String) (s : S)
      → rep.status ≡ "NotNow"
      → rep.command_uuid ≢ ""
      → IsQueue (cells (text_at c) (primary_queue r.id) s) xs
      → (s' : S) × (store_command_report kv r rep s ≡ (ok tt, s'))
        × IsQueue (cells (text_at c) (primary_queue r.id) s') xs
        × (cells (text_at c) (primary_queue r.id) s' (status rep.command_uuid) ≡ "NotNow")
  store_command_report-not_now r rep xs s nn nu h =
      let f = cells (text_at c) (primary_queue r.id) s in
      let t : (rep.status == "NotNow") ≡ true = (eq_iff rep.status "NotNow").1 nn in
      let ni : rep.status ≢ "Idle" = λ i. false≢true ((eq_iff "Idle" "NotNow").1 (sym i ∙ nn)) in
      let (s', run, cs) = store_command_report-run kv c e rel r rep s ni nu in
      let left : IsQueue (after_report rep f) xs = rw t (reported-IsQueue f rep xs h) in
      (
        s',
        run,
        rw cs left,
        at_cell (cells (text_at c) (primary_queue r.id) s') (after_report rep f)
            (status rep.command_uuid) cs ((after_report-record rep f).0 ∙ nn),
      )
