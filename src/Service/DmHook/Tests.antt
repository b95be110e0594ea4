-- ===== src/Service/DmHook/Tests.antt =====
-- A status report that is passed on by the hook, to a server that signs its answers.
use nanomdm.Common.{◌≡◌, ◌↔◌, refl, none, some, [], ◌∷◌, ◌^^◌}
use nanomdm.Common.Fault.{ok}
use nanomdm.Common.GoMap.{get_or}
use nanomdm.Bucket.Memory.{Memory, contents, empty}
use nanomdm.Mdm.Enroll.{EnrollId, Request}
use nanomdm.Mdm.Checkin
use nanomdm.Mdm.Checkin.{DeclarativeManagement}
use nanomdm.Http.Client.{ClientRequest, ClientResponse, Doer}
use nanomdm.Service.DmHook.{
  DmHook, with_verify_hmac_secret, declarative_management, with_headers, hmac_header,
}
use nanomdm.Service.DmHook.Forwarding.{declarative_management-IsSigned}

-- a server that keeps the enrollment ID of a request
abbrev server : Doer Memory
server req s = (
  ok (record {
    status_code = 200;
    status = "200 OK";
    headers = ("X-Hmac-Signature", "#items") ∷ [];
    body = ok "items";
  }),
  (contents 9).put "id" (get_or "" "X-Enrollment-ID" req.headers) s,
)

abbrev hook : DmHook Memory
hook = record {
  resolve = λ endpoint. ok ("http://a/" ^^ endpoint);
  new_request =
      λ method url body. ok (record { method = method; url = url; headers = []; body = ok body });
  doer = server;
}

abbrev device : EnrollId
device = record { type = 1; id = "d"; parent_id = "" }

abbrev request : Request
request = record { enroll_id = some device; certificate = none; params = none }

abbrev message : DeclarativeManagement
message = record {
  enrollment = Checkin.no_enrollment;
  message_type = "DeclarativeManagement";
  content = "status";
  endpoint = "status";
  raw = "<plist/>";
}

abbrev made : ClientRequest
made = record { method = "PUT"; url = "http://a/status"; headers = []; body = ok "status" }

abbrev after : Memory
after = (contents 9).put "id" "d" empty

declarative_management-IsSigned_example :
    (declarative_management
        (with_verify_hmac_secret (λ text. "#" ^^ text) (λ text. ok text) hook)
        message
        (request, empty)
      ≡ (ok (some "items"), (request, after)))
    ↔ ((resp : ClientResponse) × (server (with_headers hook message device made) empty
          ≡ (ok resp, after))
        × (resp.status_code ≡ 200)
        × (resp.body ≡ ok "items")
        × (ok (get_or "" hmac_header resp.headers) ≡ ok ("#" ^^ "items")))
declarative_management-IsSigned_example =
    declarative_management-IsSigned hook request "items" empty after (λ text. "#" ^^ text)
      (λ text. ok text) message device "http://a/status" made refl refl refl
