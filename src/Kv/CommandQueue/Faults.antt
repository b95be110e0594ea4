-- ===== src/Kv/CommandQueue/Faults.antt =====
-- What queue.go and queue_ll.go make of an error of the store at the head of the list.
use nanomdm.Common.{ℕ, suc, ◌≡◌, refl, Bool, false, none}
use nanomdm.Common.Fault.{Error, ok, err, is_not_found}
use nanomdm.Mdm.Enroll.{Enrolled}
use nanomdm.Kv.Backend.{Backend}
use nanomdm.Kv.LinkedQueue.{get_first, queue_key_name}
use nanomdm.Kv.CommandQueue.{primary_queue, next_command_from, retrieve_next_command}

module _ {S : Type 0} (kv : Backend S) where
  -- An error of the store, other than a missing key, at the read of the first pointer of the queue
  -- is not passed on: `RetrieveNextCommand` answers that there is no command, with no error.
  pub retrieve_next_command_hides_error :
      (fuel : ℕ) (r : Enrolled) (skip : Bool) (x : Error) (s s' : S)
      → kv.queue.bucket.get (queue_key_name (primary_queue r.id) "first") s ≡ (err x, s')
      → is_not_found x ≡ false
      → retrieve_next_command kv (suc fuel) r skip s ≡ (ok none, s')
  unfolding retrieve_next_command get_first next_command_from
  retrieve_next_command_hides_error fuel r skip x s s' failed other = rw (failed, other) refl
