-- ===== src/Kv/CommandQueue/Session.antt =====
-- A device that answers its queued commands one after another (queue.go), each report followed by the
-- request for the next command.
pub mod Tests
use nanomdm.Common.{
  ℕ, suc, ◌<◌, String, ◌≡◌, refl, ap, ◌∙◌, sym, ◌≢◌, false, Option, none, some, List, [], ◌∷◌, ◌==◌,
  map, ne_refl, inl, inr, length, All, arith,
}
use mathlib.Core.Path.{subst}
use nanomdm.Common.Fault.{Result, ok}
use nanomdm.Bucket.{Contents, text_at}
use nanomdm.Mdm.Enroll.{Enrolled}
use nanomdm.Mdm.Command.{Command, CommandResults}
use nanomdm.Kv.Backend.{Backend}
use nanomdm.Kv.LinkedQueue.Shape.{Cells, IsQueue}
use nanomdm.Kv.LinkedQueue.Relink.{unlinked}
use nanomdm.Kv.LinkedQueue.Unlink.{unlinked-IsQueue}
use nanomdm.Kv.LinkedQueue.Runs.{cells}
use nanomdm.Kv.CommandQueue.{primary_queue, store_command_report, retrieve_next_command}
use nanomdm.Kv.CommandQueue.Next.{IsStored, command_at, retrieve_next_command-pending}
use nanomdm.Kv.CommandQueue.Delivery.{IsAnswer, queued, report_first, pending_first}
use nanomdm.Kv.CommandQueue.Report.{
  IsReliableBackend, reported, store_command_report-run, reported-IsQueue,
}

-- what the service does with a series of reports: each is stored, and the next command retrieved
module _ {S : Type 0} (kv : Backend S) (fuel : ℕ) (r : Enrolled) where
  unfoldable pub session :
      List CommandResults → S → List (Result (Unit {0}) × Result (Option Command)) × S
  session [] s = ([], s)
  session (rep ∷ reps) s =
      let (stored, s₁) = store_command_report kv r rep s in
      let (next, s₂) = retrieve_next_command kv fuel r false s₁ in
      let (rest, s₃) = session reps s₂ in ((stored, next) ∷ rest, s₃)

  session-step :
      (rep : CommandResults) (reps : List CommandResults) (s s₁ s₂ : S) (a : Result (Unit {0}))
      (b : Result (Option Command)) (rest : List (Result (Unit {0}) × Result (Option Command)))
      → store_command_report kv r rep s ≡ (a, s₁)
      → retrieve_next_command kv fuel r false s₁ ≡ (b, s₁)
      → session reps s₁ ≡ (rest, s₂)
      → session (rep ∷ reps) s ≡ ((a, b) ∷ rest, s₂)
  unfolding session
  session-step rep reps s s₁ s₂ a b rest stored got more = rw (stored, got, more) refl

abbrev pub uuids : List CommandResults → List String
uuids [] = []
uuids (rep ∷ reps) = rep.command_uuid ∷ uuids reps

length-uuids : (reps : List CommandResults) → length (uuids reps) ≡ length reps
length-uuids [] = refl
length-uuids (rep ∷ reps) = ap suc (length-uuids reps)

-- the answers that hand out the commands in their order, and then none
abbrev pub in_order : Cells → List String → List (Result (Unit {0}) × Result (Option Command))
in_order f [] = (ok tt, ok none) ∷ []
in_order f (z ∷ zs) = (ok tt, ok (some (command_at f z))) ∷ in_order f zs

in_order-same :
    (f g : Cells) (zs : List String)
    → ((x : String) → command_at f x ≡ command_at g x)
    → in_order f zs ≡ in_order g zs
in_order-same f g [] h = refl
in_order-same f g (z ∷ zs) h = rw (h z, in_order-same f g zs h) refl

module _ {S : Type 0} (kv : Backend S) (c e : Contents S) (rel : IsReliableBackend kv c e) where
  -- On stores with no faults, a device that answers each command of its well-formed queue of
  -- stored commands, in their order and with a status other than "Idle" and "NotNow", is handed
  -- after each answer the command behind it, the way that it was stored, and none after the last;
  -- every call succeeds, and the queue is empty at the end. Any fuel above the number of commands
  -- behind the first is enough.
  pub session-delivers :
      (fuel : ℕ) (r : Enrolled) (rep : CommandResults) (reps : List CommandResults) (s : S)
      → length reps < fuel
      → All IsAnswer (rep ∷ reps)
      → IsQueue (queued c r s) (uuids (rep ∷ reps))
      → All (IsStored (queued c r s)) (uuids (rep ∷ reps))
      → (s' : S) × (session kv fuel r (rep ∷ reps) s ≡ (in_order (queued c r s) (uuids reps), s'))
        × IsQueue (queued c r s') []
  unfolding session
  session-delivers fuel r rep [] s lt answers h stored =
      let (s₁, run, queue, rest, same) = report_first kv c e rel r rep [] s answers.0 h stored.1 in
      (
        s₁,
        session-step kv fuel r rep [] s s₁ s₁ (ok tt) (ok none) [] run
            (retrieve_next_command-pending kv c rel.queue_ok fuel r false [] s₁ lt queue rest) refl,
        queue,
      )
  session-delivers fuel r rep (z ∷ reps) s lt answers h stored =
      let (s₁, run, queue, rest, same) =
        report_first kv c e rel r rep (uuids (z ∷ reps)) s answers.0 h stored.1 in
      let (s₂, more, empty) =
        session-delivers fuel r z reps s₁ (omega arith) answers.1 queue rest in
      let step =
        retrieve_next_command-pending kv c rel.queue_ok fuel r false (uuids (z ∷ reps)) s₁
          (subst (λ (k : ℕ). k < fuel) (sym (length-uuids (z ∷ reps))) lt) queue rest in
      let first = pending_first (queued c r s₁) z.command_uuid (uuids reps) in
      let others = in_order-same (queued c r s₁) (queued c r s) (uuids reps) same in
      (
        s₂,
        session-step kv fuel r rep (z ∷ reps) s s₁ s₂ (ok tt)
            (ok (some (command_at (queued c r s) z.command_uuid)))
            (in_order (queued c r s) (uuids reps)) run (step ∙ rw (first, same z.command_uuid) refl)
            (more
              ∙ ap (λ (l : List (Result (Unit {0}) × Result (Option Command))). (l, s₂)) others),
        empty,
      )
