-- ===== src/Kv/CommandQueue/Tests.antt =====
-- Runs of the command queue on stores in memory, and the theorems about it at concrete inputs.
use nanomdm.Common.{
  String, ◌≡◌, refl, inr, true, false, some, none, [], ◌∷◌, arith, ne_of_test, lookup_text,
}
use nanomdm.Common.Fault.{ok, err, fault}
use nanomdm.Bucket.{text_at}
use nanomdm.Bucket.Memory.{
  Memory, contents, bucket, txn_bucket, bucket-IsReliable, txn_bucket-CommitsBody, at_number, empty,
}
use nanomdm.Mdm.Enroll.{Enrolled}
use nanomdm.Mdm.Command.{Command, CommandResults}
use nanomdm.Kv.Backend.{Backend, update_last_seen}
use nanomdm.Kv.LinkedQueue.{
  get_first, get_last, get_next, get_prev, set_first, set_last, set_next, set_prev, unlink_from,
  unlink, enqueue, drop_pointers, clear_from, clear,
}
use nanomdm.Kv.LinkedQueue.Slots.{status, report}
use nanomdm.Kv.LinkedQueue.Shape.{Cells, IsQueue}
use nanomdm.Kv.LinkedQueue.Runs.{cells}
use nanomdm.Kv.CommandQueue.{
  primary_queue, noting, report_body, fetch_command, next_command_from, store_command_report,
  retrieve_next_command, enqueue_each, enqueue_body, after_has, enqueue_command, clear_queue,
}
use nanomdm.Kv.CommandQueue.Report.{IsReliableBackend}
use nanomdm.Kv.CommandQueue.Next.{retrieve_next_command-pending, command_at}
use nanomdm.Kv.CommandQueue.Outcome.{store_command_report-removes}
use nanomdm.Kv.CommandQueue.Clearing.{clear_queue-empties, clear_queue_strands}
use nanomdm.Kv.CommandQueue.Defects.{store_command_report_stranger, store_command_report_redelivers}
use nanomdm.Kv.CommandQueue.Faults.{retrieve_next_command_hides_error}

runs : Unit {0}
unfolding update_last_seen get_first get_last get_next get_prev set_first set_last set_next set_prev
    unlink_from unlink enqueue drop_pointers clear_from clear noting report_body fetch_command
    next_command_from store_command_report retrieve_next_command enqueue_each enqueue_body after_has
    enqueue_command clear_queue lookup_text
runs = tt

abbrev pub kv : Backend Memory
kv = record {
  cert_auth = txn_bucket 0;
  queue = txn_bucket 1;
  push_cert = txn_bucket 2;
  users = txn_bucket 3;
  devices = txn_bucket 4;
  enrollments = txn_bucket 5;
  now = λ s. "0";
}

pub kv-IsReliable : IsReliableBackend kv (contents 1) (contents 5)
kv-IsReliable = record {
  queue_ok = bucket-IsReliable 1;
  queue_txn = txn_bucket-CommitsBody 1;
  enrollments_ok = bucket-IsReliable 5;
  apart = λ k v s j. refl;
}

abbrev pub dev : Enrolled
dev = record { enroll_id = record { type = 1; id = "d"; parent_id = "" }; certificate = none }

abbrev pub results : String → String → CommandResults
results uuid st = record {
  enrollment = record {
    udid = "d";
    user_id = "";
    user_short_name = "";
    user_long_name = "";
    enrollment_id = "";
    enrollment_user_id = "";
  };
  command_uuid = uuid;
  status = st;
  error_chain = [];
  raw = "<report/>";
}

abbrev pub cmd : String → Command
cmd uuid = record { command_uuid = uuid; request_type = "DeviceInformation"; raw = "<plist/>" }

-- the queue a, b of the device
abbrev pub two_items : Memory
two_items =
    at_number 1
      (("d.queuekey.queue.first", "a")
        ∷ ("d.queuekey.queue.last", "b")
        ∷ ("d.a.queueitem.next", "b")
        ∷ ("d.b.queueitem.prev", "a")
        ∷ ("a.raw", "<a/>")
        ∷ ("a.req_type", "A")
        ∷ ("b.raw", "<b/>")
        ∷ ("b.req_type", "B")
        ∷ ("d.a.queueitem.status", "NotNow")
        ∷ [])
      empty

pub two_items-IsQueue :
    IsQueue (cells (text_at (contents 1)) (primary_queue "d") two_items) ("a" ∷ "b" ∷ [])
two_items-IsQueue = record {
  first_is = refl;
  last_is = refl;
  links = (refl, refl, (refl, refl, tt));
  distinct =
      (ne_of_test "a" "" refl, (ne_of_test "a" "b" refl, tt), (ne_of_test "b" "" refl, tt, tt));
}

-- b is delivered again after its acknowledgement, when a waits with "NotNow"
acknowledged_again :
    retrieve_next_command kv 5 dev true
      (store_command_report kv dev (results "b" "Acknowledged") two_items).1
    ≡ (
      ok (some (record { command_uuid = "b"; request_type = "B"; raw = "<b/>" })),
      (store_command_report kv dev (results "b" "Acknowledged") two_items).1,
    )
unfolding runs
acknowledged_again = refl

abbrev pub cells_of : Memory → Cells
cells_of s = cells (text_at (contents 1)) (primary_queue "d") s

retrieve_next_command-pending_example :
    retrieve_next_command kv 3 dev true two_items
    ≡ (ok (some (record { command_uuid = "b"; request_type = "B"; raw = "<b/>" })), two_items)
retrieve_next_command-pending_example =
    retrieve_next_command-pending kv (contents 1) (bucket-IsReliable 1) 3 dev true ("a" ∷ "b" ∷ [])
      two_items (omega arith) two_items-IsQueue
      (
        (ne_of_test "<a/>" "" refl, ne_of_test "A" "" refl),
        ((ne_of_test "<b/>" "" refl, ne_of_test "B" "" refl), tt),
      )

store_command_report-removes_example :
    (s' : Memory) × (store_command_report kv dev (results "a" "Acknowledged") two_items
      ≡ (ok tt, s'))
    × IsQueue (cells_of s') ("b" ∷ [])
    × (cells_of s' (status "a") ≡ "Acknowledged")
    × (cells_of s' (report "a") ≡ "<report/>")
store_command_report-removes_example =
    store_command_report-removes kv (contents 1) (contents 5) kv-IsReliable dev
      (results "a" "Acknowledged") [] ("b" ∷ []) two_items (ne_of_test "Acknowledged" "Idle" refl)
      (ne_of_test "Acknowledged" "NotNow" refl) (inr refl) two_items-IsQueue

store_command_report_stranger_example :
    (s' : Memory) × (store_command_report kv dev (results "z" "Acknowledged") two_items
      ≡ (ok tt, s'))
    × (retrieve_next_command kv 5 dev false s' ≡ (ok none, s'))
store_command_report_stranger_example =
    store_command_report_stranger kv (contents 1) (contents 5) kv-IsReliable dev
      (results "z" "Acknowledged") false 5 two_items (ne_of_test "Acknowledged" "Idle" refl)
      (ne_of_test "Acknowledged" "NotNow" refl) (ne_of_test "z" "" refl) refl refl (omega arith)

store_command_report_redelivers_example :
    (s' : Memory) × (store_command_report kv dev (results "b" "Acknowledged") two_items
      ≡ (ok tt, s'))
    × (retrieve_next_command kv 5 dev true s'
        ≡ (ok (some (command_at (cells_of two_items) "b")), s'))
store_command_report_redelivers_example =
    store_command_report_redelivers kv (contents 1) (contents 5) kv-IsReliable dev
      (results "b" "Acknowledged") "a" [] 5 two_items (ne_of_test "Acknowledged" "Idle" refl)
      (ne_of_test "Acknowledged" "NotNow" refl) (omega arith) two_items-IsQueue (refl, tt)
      (
        (ne_of_test "<a/>" "" refl, ne_of_test "A" "" refl),
        ((ne_of_test "<b/>" "" refl, ne_of_test "B" "" refl), tt),
      )

clear_queue-empties_example :
    (s' : Memory) × (clear_queue kv 3 dev two_items ≡ (ok tt, s'))
    × IsQueue (cells_of s') []
    × (retrieve_next_command kv 3 dev false s' ≡ (ok none, s'))
clear_queue-empties_example =
    clear_queue-empties kv (contents 1) (contents 5) kv-IsReliable 3 dev false ("a" ∷ "b" ∷ [])
      two_items (omega arith) two_items-IsQueue

clear_queue_strands_example :
    (t u v : Memory) × (clear_queue kv 3 dev two_items ≡ (ok tt, t))
    × (store_command_report kv dev (results "b" "Error") t ≡ (ok tt, u))
    × (enqueue_body kv (cmd "c") ("d" ∷ []) kv.queue.bucket ([], u) ≡ (ok tt, ([], v)))
    × (retrieve_next_command kv 3 dev false v ≡ (ok none, v))
clear_queue_strands_example =
    clear_queue_strands kv (contents 1) (contents 5) kv-IsReliable 3 dev (results "b" "Error")
      (cmd "c") false "a" [] two_items (ne_of_test "Error" "Idle" refl)
      (ne_of_test "Error" "NotNow" refl) (omega arith) two_items-IsQueue

-- a store whose reads fail
abbrev failing : Backend Memory
failing = record kv {
  queue = record (txn_bucket 1) {
    bucket = record (bucket 1) { get = λ k s. (err (fault "disk"), s) };
  };
}

retrieve_next_command_hides_error_example :
    retrieve_next_command failing 1 dev false two_items ≡ (ok none, two_items)
retrieve_next_command_hides_error_example =
    retrieve_next_command_hides_error failing 0 dev false (fault "disk") two_items two_items refl
      refl
