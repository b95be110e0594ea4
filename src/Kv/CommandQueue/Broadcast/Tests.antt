-- ===== src/Kv/CommandQueue/Broadcast/Tests.antt =====
-- A command enqueued for an enrollment with two others and for one with none, on stores in memory.
use nanomdm.Common.{String, ◌≡◌, refl, List, [], ◌∷◌, ◌==◌, if◌then◌else◌, ne_of_test, All}
use nanomdm.Common.Fault.{ok}
use nanomdm.Bucket.Memory.{Memory, contents}
use nanomdm.Kv.CommandQueue.{enqueue_command}
use nanomdm.Kv.CommandQueue.Apart.{Apart, Apart-of_length}
use nanomdm.Kv.CommandQueue.Enqueue.{written}
use nanomdm.Kv.CommandQueue.Broadcast.{Holds, cells_of, enqueue_command-appends_each}
use nanomdm.Kv.CommandQueue.Tests.{kv, kv-IsReliable, cmd, two_items, two_items-IsQueue}

abbrev queues : String → List String
queues i = if i == "d" then "a" ∷ "b" ∷ [] else []

enqueue_command-appends_each_example :
    (s' : Memory) × (enqueue_command kv ("d" ∷ "e" ∷ []) (cmd "c") two_items ≡ (([], ok tt), s'))
    × All (λ i. Holds (cmd "c") (queues i) (cells_of (contents 1) i s')) ("d" ∷ "e" ∷ [])
    × ((j : String)
        → All (Apart j) ("d" ∷ "e" ∷ [])
        → cells_of (contents 1) j s' ≡ written (cmd "c") (cells_of (contents 1) j two_items))
enqueue_command-appends_each_example =
    enqueue_command-appends_each kv (contents 1) (contents 5) kv-IsReliable (cmd "c")
      ("d" ∷ "e" ∷ []) queues two_items (ne_of_test "c" "" refl) refl
      ((Apart-of_length "d" "e" refl (ne_of_test "d" "e" refl), tt), (tt, tt))
      (
        (two_items-IsQueue, (ne_of_test "c" "a" refl, (ne_of_test "c" "b" refl, tt)), refl, refl),
        (
          (record { first_is = refl; last_is = refl; links = tt; distinct = tt }, tt, refl, refl),
          tt,
        ),
      )
