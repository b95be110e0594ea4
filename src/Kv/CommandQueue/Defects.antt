-- ===== src/Kv/CommandQueue/Defects.antt =====
-- What the linked queue (queue_ll.go, queue.go) does that a queue should not: three ways in which a
-- command is delivered again or the commands of a queue are lost.
use mathlib.Core.Option
use mathlib.Core.Path.{subst}
use nanomdm.Common.{
  ℕ, ◌<◌, String, ◌≡◌, refl, ap, ◌∙◌, sym, ◌≢◌, Bool, true, some, none, List, [], ◌∷◌, ◌++◌,
  eq_refl, ne_refl, length, All,
}
use nanomdm.Common.Fault.{ok}
use nanomdm.Bucket.{Contents, text_at}
use nanomdm.Mdm.Enroll.{Enrolled}
use nanomdm.Mdm.Command.{CommandResults}
use nanomdm.Kv.Backend.{Backend}
use nanomdm.Kv.LinkedQueue.Slots.{first, next, prev, status}
use nanomdm.Kv.LinkedQueue.Shape.{
  Cells, IsQueue, Follows, Fresh, Distinct-right, Fresh-at_end, at_cell,
}
use nanomdm.Kv.LinkedQueue.Relink.{unlinked}
use nanomdm.Kv.LinkedQueue.Unlink.{unlinked-last, unlinked_stranger}
use nanomdm.Kv.LinkedQueue.Runs.{cells}
use nanomdm.Kv.CommandQueue.{primary_queue, store_command_report, retrieve_next_command}
use nanomdm.Kv.CommandQueue.Next.{
  IsStored, command_at, retrieve_next_command-run, pending, pending_behind,
}
use nanomdm.Kv.CommandQueue.Delivery.{IsStored-kept, command_kept}
use nanomdm.Kv.CommandQueue.Outcome.{unlinked-status}
use nanomdm.Kv.CommandQueue.Report.{
  IsReliableBackend, reported, after_report, store_command_report-run, reported-IsQueue,
}

-- other commands keep their status when a report is written
status_kept :
    (f : Cells) (rep : CommandResults) (xs : List String)
    → Fresh rep.command_uuid xs
    → All (λ x. f (status x) ≡ "NotNow") xs
    → All (λ x. unlinked rep.command_uuid (reported rep f) (status x) ≡ "NotNow") xs
status_kept f rep [] fr h = tt
status_kept f rep (x ∷ xs) fr h = (
  unlinked-status rep.command_uuid x (reported rep f) ∙ rw (ne_refl _ x fr.0) h.0,
  status_kept f rep xs fr.1 h.1,
)

module _ {S : Type 0} (kv : Backend S) (c e : Contents S) (rel : IsReliableBackend kv c e) where
  -- On stores with no faults, a report with a status other than "Idle" and "NotNow" for a command
  -- that the enrollment's queue has no pointers for (one that is already answered, or unknown)
  -- succeeds and empties the queue: whatever it held, `RetrieveNextCommand` then returns no command.
  pub store_command_report_stranger :
      (r : Enrolled) (rep : CommandResults) (skip : Bool) (fuel : ℕ) (s : S)
      → rep.status ≢ "Idle"
      → rep.status ≢ "NotNow"
      → rep.command_uuid ≢ ""
      → cells (text_at c) (primary_queue r.id) s (prev rep.command_uuid) ≡ ""
      → cells (text_at c) (primary_queue r.id) s (next rep.command_uuid) ≡ ""
      → 0 < fuel
      → (s' : S) × (store_command_report kv r rep s ≡ (ok tt, s'))
        × (retrieve_next_command kv fuel r skip s' ≡ (ok none, s'))
  store_command_report_stranger r rep skip fuel s ni nn nu p n lt =
      let q = primary_queue r.id in
      let f = cells (text_at c) q s in
      let (s', run, cs) = store_command_report-run kv c e rel r rep s ni nu in
      let gone : after_report rep f first ≡ "" =
        rw (ne_refl rep.status "NotNow" nn)
          (unlinked_stranger (reported rep f) rep.command_uuid p n).0 in
      let ended : cells (text_at c) q s' first ≡ "" =
        at_cell (cells (text_at c) q s') (after_report rep f) first cs gone in
      (s', run, retrieve_next_command-run kv c rel.queue_ok fuel r skip [] s' lt ended tt)

  redelivered :
      (r : Enrolled) (rep : CommandResults) (y : String) (ys : List String) (fuel : ℕ) (s s' : S)
      → rep.status ≢ "NotNow"
      → length (y ∷ (ys ++ (rep.command_uuid ∷ []))) < fuel
      → (let f = cells (text_at c) (primary_queue r.id) s in
          IsQueue f (y ∷ (ys ++ (rep.command_uuid ∷ [])))
          → All (λ x. f (status x) ≡ "NotNow") (y ∷ ys)
          → All (IsStored f) (y ∷ (ys ++ (rep.command_uuid ∷ [])))
          → cells (text_at c) (primary_queue r.id) s' ≡ unlinked rep.command_uuid (reported rep f)
          → retrieve_next_command kv fuel r true s'
            ≡ (ok (some (command_at f rep.command_uuid)), s'))
  redelivered r rep y ys fuel s s' nn lt h waiting stored same =
      let f = cells (text_at c) (primary_queue r.id) s in
      let g = unlinked rep.command_uuid (reported rep f) in
      let uuid = rep.command_uuid in
      let xs = y ∷ (ys ++ (uuid ∷ [])) in
      let met : Follows g (g first) xs =
        (unlinked-last (reported rep f) y uuid ys (reported-IsQueue f rep xs h)).0 in
      let its_status : g (status uuid) ≡ rep.status =
        unlinked-status uuid uuid (reported rep f) ∙ rw (eq_refl uuid) refl in
      let next_one : pending g true xs ≡ some uuid =
        pending_behind g (y ∷ ys) uuid []
          (status_kept f rep (y ∷ ys) (Fresh-at_end (y ∷ ys) uuid h.distinct) waiting)
          (λ e. nn (sym its_status ∙ e)) in
      retrieve_next_command-run kv c rel.queue_ok fuel r true xs s' lt
        (subst (λ (k : Cells). Follows k (k first) xs) (sym same) met)
        (subst (λ (k : Cells). All (IsStored k) xs) (sym same) (IsStored-kept f rep xs stored))
      ∙ ap (λ (k : Cells). (ok (Option.map (command_at k) (pending k true xs)), s')) same
      ∙ ap (λ o. (ok (Option.map (command_at g) o), s')) next_one
      ∙ ap (λ m. (ok (some m), s')) (command_kept f rep uuid)

  -- On stores with no faults, let the enrollment's well-formed queue hold two or more commands, all
  -- but the last answered "NotNow". A report with another status than "Idle" and "NotNow" for the
  -- last one succeeds, and yet `RetrieveNextCommand` with `skipNotNow` returns that command again.
  pub store_command_report_redelivers :
      (r : Enrolled) (rep : CommandResults) (y : String) (ys : List String) (fuel : ℕ) (s : S)
      → rep.status ≢ "Idle"
      → rep.status ≢ "NotNow"
      → length (y ∷ (ys ++ (rep.command_uuid ∷ []))) < fuel
      → (let f = cells (text_at c) (primary_queue r.id) s in
          IsQueue f (y ∷ (ys ++ (rep.command_uuid ∷ [])))
          → All (λ x. f (status x) ≡ "NotNow") (y ∷ ys)
          → All (IsStored f) (y ∷ (ys ++ (rep.command_uuid ∷ [])))
          → (s' : S) × (store_command_report kv r rep s ≡ (ok tt, s'))
            × (retrieve_next_command kv fuel r true s'
                ≡ (ok (some (command_at f rep.command_uuid)), s')))
  store_command_report_redelivers r rep y ys fuel s ni nn lt h waiting stored =
      let q = primary_queue r.id in
      let f = cells (text_at c) q s in
      let uuid = rep.command_uuid in
      let xs = y ∷ (ys ++ (uuid ∷ [])) in
      let full : uuid ≢ "" = (Distinct-right (y ∷ ys) (uuid ∷ []) h.distinct).0 in
      let (s', run, cs) = store_command_report-run kv c e rel r rep s ni full in
      let same : cells (text_at c) q s' ≡ unlinked uuid (reported rep f) =
        cs ∙ rw (ne_refl rep.status "NotNow" nn) refl in
      (s', run, redelivered r rep y ys fuel s s' nn lt h waiting stored same)
