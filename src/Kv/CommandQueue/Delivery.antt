-- ===== src/Kv/CommandQueue/Delivery.antt =====
-- A report and the next command that follows it (queue.go), which the service asks for in one go.
use nanomdm.Common.{
  ℕ, ◌<◌, String, ◌≡◌, refl, ap, ◌∙◌, sym, ◌≢◌, false, some, List, [], ◌∷◌, ◌==◌, ne_refl,
  Bool-cases, inl, inr, length, All,
}
use mathlib.Core.Path.{subst}
use nanomdm.Common.Fault.{ok}
use nanomdm.Bucket.{Contents, text_at}
use nanomdm.Mdm.Enroll.{Enrolled}
use nanomdm.Mdm.Command.{CommandResults}
use nanomdm.Kv.Backend.{Backend}
use nanomdm.Kv.LinkedQueue.Slots.{raw, req_type, status}
use nanomdm.Kv.LinkedQueue.Shape.{Cells, IsQueue}
use nanomdm.Kv.LinkedQueue.Relink.{unlinked}
use nanomdm.Kv.LinkedQueue.Unlink.{unlinked-IsQueue}
use nanomdm.Kv.LinkedQueue.Runs.{cells}
use nanomdm.Kv.CommandQueue.{primary_queue, store_command_report, retrieve_next_command}
use nanomdm.Kv.CommandQueue.Next.{IsStored, command_at, pending, retrieve_next_command-pending}
use nanomdm.Kv.CommandQueue.Outcome.{unlinked-raw, unlinked-req_type}
use nanomdm.Kv.CommandQueue.Report.{
  IsReliableBackend, reported, store_command_report-run, reported-IsQueue,
}

pub IsStored-kept :
    (f : Cells) (rep : CommandResults) (xs : List String)
    → All (IsStored f) xs
    → All (IsStored (unlinked rep.command_uuid (reported rep f))) xs
IsStored-kept f rep [] h = tt
IsStored-kept f rep (x ∷ xs) h = (
  (
    (λ e. h.0.0 (sym (unlinked-raw rep.command_uuid x (reported rep f)) ∙ e)),
    (λ e. h.0.1 (sym (unlinked-req_type rep.command_uuid x (reported rep f)) ∙ e)),
  ),
  IsStored-kept f rep xs h.1,
)

pub command_kept :
    (f : Cells) (rep : CommandResults) (x : String)
    → command_at (unlinked rep.command_uuid (reported rep f)) x ≡ command_at f x
command_kept f rep x =
    let g = unlinked rep.command_uuid (reported rep f) in
    let a : g (raw x) ≡ f (raw x) = unlinked-raw rep.command_uuid x (reported rep f) in
    let d : g (req_type x) ≡ f (req_type x) =
      unlinked-req_type rep.command_uuid x (reported rep f) in
    λ i. record { command_uuid = x; request_type = d i; raw = a i }

pub pending_first : (f : Cells) (z : String) (zs : List String) → pending f false (z ∷ zs) ≡ some z
pending_first f z zs = elim (Bool-cases (f (status z) == "NotNow")) [
  | inl t ↦ rw t refl
  | inr n ↦ rw n refl
]

-- a report that a command has been carried out
abbrev pub IsAnswer : CommandResults → Type 0
IsAnswer rep = (rep.status ≢ "Idle") × (rep.status ≢ "NotNow") × (rep.command_uuid ≢ "")

abbrev pub queued : {S : Type 0} → Contents S → Enrolled → S → Cells
queued c r s = cells (text_at c) (primary_queue r.id) s

module _ {S : Type 0} (kv : Backend S) (c e : Contents S) (rel : IsReliableBackend kv c e) where
  -- the report for the first command, and what it leaves of the others
  pub report_first :
      (r : Enrolled) (rep : CommandResults) (zs : List String) (s : S)
      → IsAnswer rep
      → IsQueue (queued c r s) (rep.command_uuid ∷ zs)
      → All (IsStored (queued c r s)) zs
      → (s' : S) × (store_command_report kv r rep s ≡ (ok tt, s'))
        × IsQueue (queued c r s') zs
        × All (IsStored (queued c r s')) zs
        × ((x : String) → command_at (queued c r s') x ≡ command_at (queued c r s) x)
  report_first r rep zs s (ni, nn, full) h stored =
      let f = queued c r s in
      let g = unlinked rep.command_uuid (reported rep f) in
      let (s', run, cs) = store_command_report-run kv c e rel r rep s ni full in
      let same : queued c r s' ≡ g = cs ∙ rw (ne_refl rep.status "NotNow" nn) refl in
      (
        s',
        run,
        subst (λ (k : Cells). IsQueue k zs) (sym same)
            (unlinked-IsQueue (reported rep f) rep.command_uuid [] zs
              (reported-IsQueue f rep (rep.command_uuid ∷ zs) h) (inr refl)),
        subst (λ (k : Cells). All (IsStored k) zs) (sym same) (IsStored-kept f rep zs stored),
        (λ x. ap (λ (k : Cells). command_at k x) same ∙ command_kept f rep x),
      )

  -- On stores with no faults: a report with a status other than "Idle" and "NotNow" for the first
  -- command of an enrollment's well-formed queue succeeds, leaves the queue of the others, and
  -- `RetrieveNextCommand` then returns the second command, the way that it was stored.
  pub store_command_report-next :
      (r : Enrolled) (rep : CommandResults) (z : String) (zs : List String) (fuel : ℕ) (s : S)
      → rep.status ≢ "Idle"
      → rep.status ≢ "NotNow"
      → rep.command_uuid ≢ ""
      → length (z ∷ zs) < fuel
      → IsQueue (cells (text_at c) (primary_queue r.id) s) (rep.command_uuid ∷ z ∷ zs)
      → All (IsStored (cells (text_at c) (primary_queue r.id) s)) (z ∷ zs)
      → (s' : S) × (store_command_report kv r rep s ≡ (ok tt, s'))
        × (retrieve_next_command kv fuel r false s'
            ≡ (ok (some (command_at (cells (text_at c) (primary_queue r.id) s) z)), s'))
        × IsQueue (cells (text_at c) (primary_queue r.id) s') (z ∷ zs)
  store_command_report-next r rep z zs fuel s ni nn full lt h stored =
      let (s', run, queue, rest, same) = report_first r rep (z ∷ zs) s (ni, nn, full) h stored in
      (
        s',
        run,
        rw
            (
              retrieve_next_command-pending kv c rel.queue_ok fuel r false (z ∷ zs) s' lt queue
                  rest,
              pending_first (queued c r s') z zs,
              same z,
            )
            refl,
        queue,
      )
