-- ===== src/Kv/CommandQueue/Session/Tests.antt =====
-- A device that answers the two commands of its queue, on a store in memory.
use nanomdm.Common.{◌≡◌, refl, some, none, [], ◌∷◌, ne_of_test, arith}
use nanomdm.Common.Fault.{ok}
use nanomdm.Bucket.Memory.{Memory, contents}
use nanomdm.Kv.LinkedQueue.Shape.{IsQueue}
use nanomdm.Kv.CommandQueue.Tests.{kv, kv-IsReliable, dev, results, two_items, two_items-IsQueue}
use nanomdm.Kv.CommandQueue.Delivery.{queued}
use nanomdm.Kv.CommandQueue.Session.{session, session-delivers}

session-delivers_example :
    (s' : Memory) × (session kv 2 dev
        (results "a" "Acknowledged" ∷ results "b" "Error" ∷ [])
        two_items
      ≡ (
        (ok tt, ok (some (record { command_uuid = "b"; request_type = "B"; raw = "<b/>" })))
            ∷ (ok tt, ok none)
            ∷ [],
        s',
      ))
    × IsQueue (queued (contents 1) dev s') []
session-delivers_example =
    session-delivers kv (contents 1) (contents 5) kv-IsReliable 2 dev (results "a" "Acknowledged")
      (results "b" "Error" ∷ []) two_items (omega arith)
      (
        (
          ne_of_test "Acknowledged" "Idle" refl,
          ne_of_test "Acknowledged" "NotNow" refl,
          ne_of_test "a" "" refl,
        ),
        (
          (
            ne_of_test "Error" "Idle" refl,
            ne_of_test "Error" "NotNow" refl,
            ne_of_test "b" "" refl,
          ),
          tt,
        ),
      )
      two_items-IsQueue
      (
        (ne_of_test "<a/>" "" refl, ne_of_test "A" "" refl),
        ((ne_of_test "<b/>" "" refl, ne_of_test "B" "" refl), tt),
      )
