-- ===== src/Service/Webhook/Tests.antt =====
-- A CheckOut that reaches a webhook behind the main service, on stores in memory.
use nanomdm.Common.{◌≡◌, refl, none}
use nanomdm.Common.Fault.{ok}
use nanomdm.Bucket.Memory.{Memory, contents, empty}
use nanomdm.Mdm.Enroll.{EnrollId, Request, resolved}
use nanomdm.Mdm.Checkin.{CheckOut}
use nanomdm.Kv.CommandQueue.Tests.{kv, results}
use nanomdm.Kv.Enrollments.{kv_store}
use nanomdm.Service.Nano
use nanomdm.Service.Nano.{Nano}
use nanomdm.Service.Multi.{multi}
use nanomdm.Service.Webhook.{Webhook, checkin_event, send}
use nanomdm.Service.Webhook.Told.{both, told, check_out-told}

abbrev main : Nano Memory
main = Nano.new_nano (kv_store kv 3)

-- a webhook whose server keeps the last topic and answers with an error
abbrev hook : Webhook Memory
hook = record {
  marshal = λ e. ok e.topic;
  post = λ body s. (ok (500, "500 Internal Server Error"), (contents 9).put "topic" body s);
  encode_base64 = λ s. s;
  store = none;
  now = λ s. "0";
  event_id = none;
}

abbrev leave : CheckOut
leave = record {
  enrollment = (results "" "").enrollment;
  message_type = "CheckOut";
  raw = "<plist/>";
}

abbrev request : Request
request = record { enroll_id = none; certificate = none; params = none }

abbrev device : EnrollId
device = record { type = 1; id = "d"; parent_id = "" }

computes : Unit {0}
unfolding Nano.normalize resolved
computes = tt

check_out-told_example : (multi (both main hook)).check_out leave (request, empty) ≡ (
  (Nano.check_out main leave (request, empty)).0,
  (
    told main hook request device,
    (send hook
        (checkin_event hook "mdm.CheckOut" device
          (told main hook request device)
          leave.enrollment
          leave.raw
          none
          (Nano.check_out main leave (request, empty)).1.1)
        (Nano.check_out main leave (request, empty)).1.1).1,
  ),
)
unfolding computes
check_out-told_example = check_out-told main hook leave device request empty refl
