-- ===== src/Service/Nano/Delivery.antt =====
-- The main service over the key-value backend: a device's report and the command in the reply.
use nanomdm.Common.{ℕ, ◌<◌, String, ◌≡◌, refl, ◌≢◌, some, List, ◌∷◌, ne_refl, length, All}
use nanomdm.Common.Fault.{ok}
use nanomdm.Bucket.{Contents, text_at}
use nanomdm.Mdm.Enroll.{EnrollId, Enrolled, Request, validate}
use nanomdm.Mdm.Command.{CommandResults}
use nanomdm.Kv.Backend.{Backend}
use nanomdm.Kv.LinkedQueue.Shape.{IsQueue}
use nanomdm.Kv.LinkedQueue.Runs.{cells}
use nanomdm.Kv.CommandQueue.{primary_queue}
use nanomdm.Kv.CommandQueue.Next.{IsStored, command_at}
use nanomdm.Kv.CommandQueue.Report.{IsReliableBackend}
use nanomdm.Kv.CommandQueue.Delivery.{store_command_report-next}
use nanomdm.Kv.Enrollments.{kv_store}
use nanomdm.Service.Nano.{normalize, new_nano, setup_request, command_and_report_results}

module _ {S : Type 0} (kv : Backend S) (c e : Contents S) (rel : IsReliableBackend kv c e) where
  -- On stores with no faults, when a device or user with a valid enrollment ID reports a status other
  -- than "Idle" and "NotNow" for the first command of its well-formed queue, the service over the
  -- key-value backend replies with the second command as it was stored, and leaves the queue without
  -- the first.
  pub command_and_report_results-delivers :
      (rq : Request) (rep : CommandResults) (eid : EnrollId) (z : String) (zs : List String)
      (fuel : ℕ) (s : S)
      → validate (normalize rep.enrollment) ≡ ok eid
      → rep.status ≢ "Idle"
      → rep.status ≢ "NotNow"
      → rep.command_uuid ≢ ""
      → length (z ∷ zs) < fuel
      → IsQueue (cells (text_at c) (primary_queue eid.id) s) (rep.command_uuid ∷ z ∷ zs)
      → All (IsStored (cells (text_at c) (primary_queue eid.id) s)) (z ∷ zs)
      → (s' : S) × (command_and_report_results (new_nano (kv_store kv fuel)) rep (rq, s) ≡ (
        ok (some (command_at (cells (text_at c) (primary_queue eid.id) s) z)),
        (record rq { enroll_id = normalize rep.enrollment }, s'),
      ))
        × IsQueue (cells (text_at c) (primary_queue eid.id) s') (z ∷ zs)
  unfolding command_and_report_results setup_request
  command_and_report_results-delivers rq rep eid z zs fuel s v ni nn full lt h stored =
      let r : Enrolled = record { enroll_id = eid; certificate = rq.certificate } in
      let (s', run, next, queue) =
        store_command_report-next kv c e rel r rep z zs fuel s ni nn full lt h stored in
      (s', rw (v, run, ne_refl rep.status "NotNow" nn, next) refl, queue)
