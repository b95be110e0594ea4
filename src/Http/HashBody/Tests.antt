-- ===== src/Http/HashBody/Tests.antt =====
-- The clients of http/hashbody with a hash that marks a text.
use nanomdm.Common.{String, ◌≡◌, ◌↔◌, refl, [], ◌∷◌, ◌==◌, ◌^^◌, ne_of_test}
use nanomdm.Common.Fault.{ok}
use nanomdm.Bucket.Memory.{Memory, empty}
use nanomdm.Http.Client.{ClientRequest, ClientResponse, Doer}
use nanomdm.Http.HashBody.{set_body_hash_header, verify_body_hash_header, verify_body_hash_do}
use nanomdm.Http.HashBody.Laws.{
  IsSigned, verify_body_hash_do-IsSigned, verify_body_hash_header-set_body_hash_header,
}

abbrev hash : String → String
hash text = "#" ^^ text

abbrev request : ClientRequest
request = record { method = "PUT"; url = "http://a"; headers = []; body = ok "status" }

abbrev signed : ClientResponse
signed = record {
  status_code = 200;
  status = "200 OK";
  headers = ("X-Hash", "#items") ∷ [];
  body = ok "items";
}

abbrev upstream : Doer Memory
upstream req s = (ok signed, s)

verified_iff :
    (verify_body_hash_do hash "X-Hash" upstream (λ text. ok text) request empty
      ≡ (ok signed, empty))
    ↔ ((upstream request empty ≡ (ok signed, empty))
        × IsSigned hash "X-Hash" (ne_of_test "X-Hash" "" refl) (λ text. ok text) signed)
verified_iff =
    verify_body_hash_do-IsSigned hash "X-Hash" (ne_of_test "X-Hash" "" refl) upstream
      (λ text. ok text) request signed empty empty

verified :
    verify_body_hash_do hash "X-Hash" upstream (λ text. ok text) request empty ≡ (ok signed, empty)
verified = verified_iff.1 (refl, ("items", refl, refl))

verify_body_hash_header-set_body_hash_header_example :
    (sent : ClientRequest) × (set_body_hash_header hash "X-Hash" (λ text. text) request
      ≡ ok (sent, hash "status"))
    × (sent.body ≡ ok "status")
    × ((resp : ClientResponse) (answer : String)
        → resp.headers ≡ sent.headers
        → resp.body ≡ ok answer
        → verify_body_hash_header hash "X-Hash" (λ text. ok text) resp
          ≡ ok (hash answer == hash "status", answer))
verify_body_hash_header-set_body_hash_header_example =
    verify_body_hash_header-set_body_hash_header hash "X-Hash" (ne_of_test "X-Hash" "" refl)
      (λ text. text) (λ text. ok text) (λ text. refl) request "status" refl
