-- ===== src/Kv/CommandQueue/Clearing.antt =====
-- ClearQueue of storage/kv/queue.go, and what a late report and a new command meet behind it.
use nanomdm.Common.{
  ℕ, ◌<◌, String, ◌≡◌, ap, ◌∙◌, sym, ◌≢◌, Bool, none, List, [], ◌∷◌, ◌++◌, arith, ne_refl, length,
}
use nanomdm.Common.Fault.{ok}
use nanomdm.Bucket.{Contents, text_at}
use nanomdm.Mdm.Enroll.{Enrolled}
use nanomdm.Mdm.Command.{Command, CommandResults}
use nanomdm.Kv.Backend.{Backend}
use nanomdm.Kv.LinkedQueue.{clear}
use nanomdm.Kv.LinkedQueue.Slots.{first, last, next, prev}
use nanomdm.Kv.LinkedQueue.Shape.{
  Cells, IsQueue, Distinct-right, Distinct-left, Distinct-last, Distinct-Fresh_empty, last_or,
  last_or-append, at_cell,
}
use nanomdm.Kv.LinkedQueue.Relink.{enqueued}
use nanomdm.Kv.LinkedQueue.Unlink.{prev-at, next-at, unlinked_tail}
use nanomdm.Kv.LinkedQueue.Clear.{
  cleared_from, clear-run, cleared-IsQueue, cleared_from-prev_last, cleared_from-next_empty,
}
use nanomdm.Kv.LinkedQueue.Runs.{cells}
use nanomdm.Kv.CommandQueue.{
  primary_queue, clear_queue, store_command_report, enqueue_body, retrieve_next_command,
}
use nanomdm.Kv.CommandQueue.Next.{retrieve_next_command-run}
use nanomdm.Kv.CommandQueue.Enqueue.{enqueue_body-run, written}
use nanomdm.Kv.CommandQueue.Report.{
  IsReliableBackend, reported, after_report, store_command_report-run,
}

-- The cells after `clear` of two or more items and then a final report for the last of them: there
-- is a last item, and no first one.
stranded :
    (f : Cells) (y : String) (ys : List String) (rep : CommandResults)
    → rep.status ≢ "NotNow"
    → IsQueue f (y ∷ (ys ++ (rep.command_uuid ∷ [])))
    → (let k = after_report rep (cleared_from "" (y ∷ (ys ++ (rep.command_uuid ∷ []))) f) in
        (k first ≡ "") × (k last ≢ ""))
stranded f y ys rep nn h =
    let id = rep.command_uuid in
    let xs = y ∷ (ys ++ (id ∷ [])) in
    let g = cleared_from "" xs f in
    let its_prev : g (prev id) ≡ last_or y ys =
      ap (λ x. g (prev x)) (sym (last_or-append y id ys []))
      ∙ cleared_from-prev_last "" y (ys ++ (id ∷ [])) f (Distinct-Fresh_empty xs h.distinct)
          h.distinct
      ∙ ap (λ x. f (prev x)) (last_or-append y id ys [])
      ∙ prev-at f "" id (y ∷ ys) [] h.links in
    let its_next : g (next id) ≡ "" =
      cleared_from-next_empty "" id xs f (next-at f "" id (y ∷ ys) [] h.links) in
    let before : last_or y ys ≢ "" =
      Distinct-last y ys (Distinct-left (y ∷ ys) (id ∷ []) h.distinct) in
    let ends = unlinked_tail (reported rep g) id (λ e. before (sym its_prev ∙ e)) its_next in
    rw (ne_refl rep.status "NotNow" nn)
      (ends.0 ∙ (cleared-IsQueue xs f).first_is, λ e. before (sym its_prev ∙ sym ends.1 ∙ e))

module _ {S : Type 0} (kv : Backend S) (c e : Contents S) (rel : IsReliableBackend kv c e) where
  clear_queue-run :
      (fuel : ℕ) (r : Enrolled) (xs : List String) (s : S)
      → length xs < fuel
      → IsQueue (cells (text_at c) (primary_queue r.id) s) xs
      → (s' : S) × (clear_queue kv fuel r s ≡ (ok tt, s'))
        × (cells (text_at c) (primary_queue r.id) s'
            ≡ cleared_from "" xs (cells (text_at c) (primary_queue r.id) s))
  unfolding clear_queue
  clear_queue-run fuel r xs s lt h =
      let q = primary_queue r.id in
      let (s', run, cs) = clear-run kv.queue.bucket c rel.queue_ok q fuel xs s lt h in
      (s', rel.queue_txn.txn-eq (λ b. clear b q fuel) s s' run, cs)

  -- On stores with no faults and with fuel for the queue's length, `ClearQueue` of a well-formed
  -- queue ends without an error and leaves the empty queue, so that `RetrieveNextCommand` returns no
  -- command.
  pub clear_queue-empties :
      (fuel : ℕ) (r : Enrolled) (skip : Bool) (xs : List String) (s : S)
      → length xs < fuel
      → IsQueue (cells (text_at c) (primary_queue r.id) s) xs
      → (s' : S) × (clear_queue kv fuel r s ≡ (ok tt, s'))
        × IsQueue (cells (text_at c) (primary_queue r.id) s') []
        × (retrieve_next_command kv fuel r skip s' ≡ (ok none, s'))
  clear_queue-empties fuel r skip xs s lt h =
      let q = primary_queue r.id in
      let (s', run, cs) = clear_queue-run fuel r xs s lt h in
      let gone = cleared-IsQueue xs (cells (text_at c) q s) in
      (
        s',
        run,
        rw cs gone,
        retrieve_next_command-run kv c rel.queue_ok fuel r skip [] s' (omega arith)
            (at_cell (cells (text_at c) q s') _ first cs gone.first_is) tt,
      )

  -- On stores with no faults: after `ClearQueue` of a well-formed queue of two or more commands, a
  -- report with a status other than "Idle" and "NotNow" for what was the last of them makes the next
  -- command that is enqueued unreachable. Each of the three calls succeeds, and then
  -- `RetrieveNextCommand` returns no command.
  pub clear_queue_strands :
      (fuel : ℕ) (r : Enrolled) (rep : CommandResults) (cmd : Command) (skip : Bool) (y : String)
      (ys : List String) (s : S)
      → rep.status ≢ "Idle"
      → rep.status ≢ "NotNow"
      → length (y ∷ (ys ++ (rep.command_uuid ∷ []))) < fuel
      → IsQueue (cells (text_at c) (primary_queue r.id) s) (y ∷ (ys ++ (rep.command_uuid ∷ [])))
      → (t u v : S) × (clear_queue kv fuel r s ≡ (ok tt, t))
        × (store_command_report kv r rep t ≡ (ok tt, u))
        × (enqueue_body kv cmd (r.id ∷ []) kv.queue.bucket ([], u) ≡ (ok tt, ([], v)))
        × (retrieve_next_command kv fuel r skip v ≡ (ok none, v))
  clear_queue_strands fuel r rep cmd skip y ys s ni nn lt h =
      let q = primary_queue r.id in
      let f = cells (text_at c) q s in
      let xs = y ∷ (ys ++ (rep.command_uuid ∷ [])) in
      let k = after_report rep (cleared_from "" xs f) in
      let full = (Distinct-right (y ∷ ys) (rep.command_uuid ∷ []) h.distinct).0 in
      let ends = stranded f y ys rep nn h in
      let (t, run_clear, ct) = clear_queue-run fuel r xs s lt h in
      let (u, run_report, cu) = store_command_report-run kv c e rel r rep t ni full in
      let (v, run_enqueue, cv) = enqueue_body-run kv c e rel r.id cmd u in
      let cells_v : cells (text_at c) q v ≡ enqueued cmd.command_uuid (written cmd k) =
        cv ∙ ap (λ g. enqueued cmd.command_uuid (written cmd g)) (cu ∙ ap (after_report rep) ct) in
      let nothing : enqueued cmd.command_uuid (written cmd k) first ≡ "" =
        rw (ne_refl (k last) "" ends.1) ends.0 in
      (
        t,
        u,
        v,
        run_clear,
        run_report,
        run_enqueue,
        retrieve_next_command-run kv c rel.queue_ok fuel r skip [] v (omega arith)
            (at_cell (cells (text_at c) q v) _ first cells_v nothing) tt,
      )
