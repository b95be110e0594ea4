-- ===== src/Kv/CommandQueue/Broadcast.antt =====
-- EnqueueCommand of storage/kv/queue.go, for several enrollments.
pub mod Tests
use nanomdm.Common.{String, ◌≡◌, refl, ap, ◌∙◌, sym, ◌≢◌, none, some, List, [], ◌∷◌, ◌++◌, All}
use nanomdm.Common.Fault.{ok}
use nanomdm.Bucket.{Contents, text_at}
use nanomdm.Mdm.Command.{Command}
use nanomdm.Kv.Backend.{Backend}
use nanomdm.Kv.LinkedQueue.{Queue, enqueue}
use nanomdm.Kv.LinkedQueue.Slots.{next, prev, raw, req_type, slot_key}
use nanomdm.Kv.LinkedQueue.Shape.{Cells, IsQueue, Fresh, at_cell}
use nanomdm.Kv.LinkedQueue.Relink.{enqueued, enqueued-IsQueue}
use nanomdm.Kv.LinkedQueue.Runs.{cells, cells-put, enqueue-run}
use nanomdm.Kv.CommandQueue.{
  primary_queue, enqueue_body, enqueue_each, noting, after_has, enqueue_command,
}
use nanomdm.Kv.CommandQueue.Report.{IsReliableBackend}
use nanomdm.Kv.CommandQueue.Enqueue.{set_command-run, written, written-IsQueue, enqueued-written}
use nanomdm.Kv.CommandQueue.Apart.{Apart, Apart-sym, enqueue-Apart}

-- each ID is apart from those after it
abbrev pub Separate : List String → Type 0
Separate [] = Unit
Separate (i ∷ ids) = All (Apart i) ids × Separate ids

-- the cells of an enrollment's queue
abbrev pub cells_of : {S : Type 0} → Contents S → String → S → Cells
cells_of c i = cells (text_at c) (primary_queue i)

-- A well-formed queue that does not have the command yet, nor pointers of it.
abbrev pub Awaits : String → List String → Cells → Type 0
Awaits uuid xs f = IsQueue f xs × Fresh uuid xs × (f (next uuid) ≡ "") × (f (prev uuid) ≡ "")

-- The well-formed queue with the command behind the others, which is stored.
abbrev pub Holds : Command → List String → Cells → Type 0
Holds cmd xs f =
    IsQueue f (xs ++ (cmd.command_uuid ∷ []))
    × (f (raw cmd.command_uuid) ≡ cmd.raw)
    × (f (req_type cmd.command_uuid) ≡ cmd.request_type)

enqueued-Holds :
    (cmd : Command) (xs : List String) (f g : Cells)
    → cmd.command_uuid ≢ ""
    → Awaits cmd.command_uuid xs f
    → g ≡ enqueued cmd.command_uuid (written cmd f)
    → Holds cmd xs g
enqueued-Holds cmd xs f g ne (h, fr, n, p) e = (
  rw e
      (enqueued-IsQueue (written cmd f) cmd.command_uuid xs (written-IsQueue f cmd xs h) ne fr n p),
  at_cell _ _ (raw cmd.command_uuid) e (enqueued-written f cmd).0,
  at_cell _ _ (req_type cmd.command_uuid) e (enqueued-written f cmd).1,
)

module _ {S : Type 0} (kv : Backend S) (c e : Contents S) (rel : IsReliableBackend kv c e) where
  abbrev Enqueued : String → S → S → String → Type 0
  Enqueued uuid s u i = cells_of c i u ≡ enqueued uuid (cells_of c i s)

  abbrev Unchanged : S → S → String → Type 0
  Unchanged s u j = cells_of c j u ≡ cells_of c j s

  -- `enqueue` for one ID: its queue, and those apart from it
  enqueue_one :
      (uuid i : String) (s : S)
      → (t : S) × (enqueue kv.queue.bucket (primary_queue i) uuid s ≡ (ok tt, t))
        × Enqueued uuid s t i
        × ((j : String) → Apart i j → Unchanged s t j)
  enqueue_one uuid i s =
      let (t, run, ct) = enqueue-run kv.queue.bucket c rel.queue_ok (primary_queue i) uuid s in
      (
        t,
        run,
        ct,
        λ j apart.
            sym (ap (λ o. cells_of c j o.1) run)
            ∙ enqueue-Apart kv.queue.bucket c rel.queue_ok i j apart uuid s,
      )

  -- what is enqueued after the write in one queue is so from before it
  Enqueued-later :
      (uuid i : String) (s t u : S)
      → ((j : String) → Apart i j → Unchanged s t j)
      → (ids : List String) → All (Apart i) ids
      → All (Enqueued uuid t u) ids
      → All (Enqueued uuid s u) ids
  Enqueued-later uuid i s t u same [] a h = tt
  Enqueued-later uuid i s t u same (j ∷ ids) a h =
      (h.0 ∙ ap (enqueued uuid) (same j a.0), Enqueued-later uuid i s t u same ids a.1 h.1)

  enqueue_each-run :
      (uuid : String) (ids : List String) (s : S)
      → Separate ids
      → (u : S) × (enqueue_each kv uuid ids ([], s) ≡ (ok tt, ([], u)))
        × All (Enqueued uuid s u) ids
        × ((j : String) → All (Apart j) ids → Unchanged s u j)
  unfolding enqueue_each noting
  enqueue_each-run uuid [] s sep = (s, refl, tt, λ j a. refl)
  enqueue_each-run uuid (i ∷ ids) s sep =
      let (t, run, ct, others) = enqueue_one uuid i s in
      let (u, runs, cu, rest) = enqueue_each-run uuid ids t sep.1 in
      (
        u,
        rw run runs,
        (rest i sep.0 ∙ ct, Enqueued-later uuid i s t u others ids sep.0 cu),
        λ j a. rest j a.1 ∙ others j (Apart-sym j i a.0),
      )

  -- the write of the command's own two keys, for every queue
  command-written :
      (cmd : Command) (s : S)
      → (t : S) × (kv.queue.bucket.set_map
            ((slot_key (primary_queue "") (raw cmd.command_uuid), cmd.raw)
              ∷ (slot_key (primary_queue "") (req_type cmd.command_uuid), cmd.request_type)
              ∷ [])
            s
          ≡ (ok tt, t))
        × ((i : String) → cells_of c i t ≡ written cmd (cells_of c i s))
  command-written cmd s =
      let (t, run, ct) = set_command-run kv c e rel (primary_queue "") cmd s in
      (
        t,
        run,
        λ i.
            let (t', run', ct') = set_command-run kv c e rel (primary_queue i) cmd s in
            ap (λ o. cells_of c i o.1) (sym run ∙ run') ∙ ct',
      )

  Holds-All :
      (cmd : Command) (queues : String → List String) (s t u : S)
      → cmd.command_uuid ≢ ""
      → ((i : String) → cells_of c i t ≡ written cmd (cells_of c i s))
      → (ids : List String) → All (λ i. Awaits cmd.command_uuid (queues i) (cells_of c i s)) ids
      → All (Enqueued cmd.command_uuid t u) ids
      → All (λ i. Holds cmd (queues i) (cells_of c i u)) ids
  Holds-All cmd queues s t u ne w [] a h = tt
  Holds-All cmd queues s t u ne w (i ∷ ids) a h = (
    enqueued-Holds cmd (queues i) (cells_of c i s) (cells_of c i u) ne a.0
        (h.0 ∙ ap (enqueued cmd.command_uuid) (w i)),
    Holds-All cmd queues s t u ne w ids a.1 h.1,
  )

  enqueue_body-All :
      (cmd : Command) (ids : List String) (s : S)
      → Separate ids
      → (t : S) × (u : S) × (enqueue_body kv cmd ids kv.queue.bucket ([], s) ≡ (ok tt, ([], u)))
        × ((i : String) → cells_of c i t ≡ written cmd (cells_of c i s))
        × All (Enqueued cmd.command_uuid t u) ids
        × ((j : String) → All (Apart j) ids → Unchanged t u j)
  unfolding enqueue_body
  enqueue_body-All cmd ids s sep =
      let (t, run, ct) = command-written cmd s in
      let (u, runs, cu, others) = enqueue_each-run cmd.command_uuid ids t sep in
      (t, u, rw run runs, ct, cu, others)

  -- On stores with no faults, EnqueueCommand of a command whose UUID is not empty, has no stored
  -- command, and is in none of the well-formed queues of the enrollments nor has pointers there,
  -- for enrollments of whose IDs none begins the keys of another, succeeds with no errors noted.
  -- It appends the command to the queue of each, which is well-formed again, stores its bytes and
  -- request type, and leaves all else of the queues of other enrollments, whose keys none of the
  -- IDs begins, as it was.
  pub enqueue_command-appends_each :
      (cmd : Command) (ids : List String) (queues : String → List String) (s : S)
      → cmd.command_uuid ≢ ""
      → c.find s (slot_key (primary_queue "") (raw cmd.command_uuid)) ≡ none
      → Separate ids
      → All (λ i. Awaits cmd.command_uuid (queues i) (cells_of c i s)) ids
      → (s' : S) × (enqueue_command kv ids cmd s ≡ (([], ok tt), s'))
        × All (λ i. Holds cmd (queues i) (cells_of c i s')) ids
        × ((j : String) → All (Apart j) ids → cells_of c j s' ≡ written cmd (cells_of c j s))
  unfolding enqueue_command after_has
  enqueue_command-appends_each cmd ids queues s ne absent sep ready =
      let (t, u, run, ct, cu, others) = enqueue_body-All cmd ids s sep in
      (
        u,
        rw
            (
              rel.queue_ok.has-eq (slot_key (primary_queue "") (raw cmd.command_uuid)) s,
              absent,
              rel.queue_txn.txn_noting-eq (enqueue_body kv cmd ids) ([], s) ([], u) run,
            )
            refl,
        Holds-All cmd queues s t u ne ct ids ready cu,
        λ j a. others j a ∙ ct j,
      )
