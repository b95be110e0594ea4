-- ===== src/Push/Nanopush/Request/Tests.antt =====
-- One push to a server that takes it, and one to a server that does not.
use nanomdm.Common.{ℕ, String, ◌≡◌, ◌↔◌, refl, none, some, [], ◌∷◌, ◌^^◌}
use nanomdm.Common.Fault.{Result, ok, fault, wrap}
use nanomdm.Bucket.Memory.{Memory, empty}
use nanomdm.Mdm.Checkin
use nanomdm.Http.Client.{ClientRequest, ClientResponse}
use nanomdm.Push.Nanopush.Request.{
  Answer, responded, go_away, Provider, JsonPushError, do_push, new_error, push_error_text,
}
use nanomdm.Push.Nanopush.Request.Outcome.{do_push-error}

abbrev answering : Answer → Provider Memory
answering a = record {
  client = λ req s. (a, s);
  expiration = 0;
  workers = 5;
  base_url = "https://api.push.apple.com";
}

abbrev taken : Answer
taken =
    responded (record {
      status_code = 200;
      status = "200 OK";
      headers = ("Apns-Id", "7") ∷ [];
      body = ok "";
    })

abbrev decode : Result String → Result JsonPushError
decode body = ok (record { reason = "Unregistered"; timestamp = 5 })

abbrev new_request : String → String → String → Result ClientRequest
new_request method url body =
    ok (record { method = method; url = url; headers = []; body = ok body })

abbrev expires : Memory → ℕ → String
expires s n = "0"

abbrev info : Checkin.Push
info = record { topic = "t"; push_magic = "m"; token = "k" }

answers :
    ((do_push decode (answering taken) (λ t. t) new_request expires info empty).0
      ≡ record { id = "7"; error = none })
    × ((do_push decode (answering (go_away "{}" 410)) (λ t. t) new_request expires info empty).0
        ≡ record {
          id = "";
          error =
              some
                (wrap "push HTTP status: 410" (fault "APNs push error: Unregistered: timestamp 5"));
        })
unfolding do_push new_error push_error_text
answers = (refl, refl)

do_push-error_example :
    ((do_push decode (answering taken) (λ t. t) new_request expires info empty).0.error ≡ none) ↔ (
      (req : ClientRequest) × (resp : ClientResponse) × (new_request "POST"
          ("https://api.push.apple.com" ^^ ("/3/device/" ^^ "k"))
          ("{\"mdm\":\"" ^^ ("m" ^^ "\"}"))
        ≡ ok req)
      × (taken ≡ responded resp)
      × (resp.status_code ≡ 200))
do_push-error_example =
    do_push-error decode (answering taken) (λ t. t) new_request expires info empty
