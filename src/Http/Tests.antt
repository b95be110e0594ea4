-- ===== src/Http/Tests.antt =====
-- Requests to the middleware in front of the proxy, and the theorem about it at one of them.
use nanomdm.Common.{String, ◌≡◌, refl, Option, some, none, [], ◌∷◌, ◌==◌, if◌then◌else◌}
use nanomdm.Common.Fault.{Result, ok, err, fault}
use nanomdm.Common.Exec.{Exec, pure, raise}
use nanomdm.Bucket.Memory.{Memory, at_number, empty}
use nanomdm.Mdm.Enroll.{Certificate}
use nanomdm.Kv.CommandQueue.Tests.{kv}
use nanomdm.Kv.CertHash.{enrollment_from_hash}
use nanomdm.Http.{HttpRequest, Writer, Handler, fail}
use nanomdm.Http.Identity.{
  cert_extract_mdm_signature_middleware, cert_verify_middleware, cert_with_enrollment_id_middleware,
}
use nanomdm.Http.Identity.Guard.{guarded}

-- answers in another bucket of the memory
abbrev writer : Writer Memory
writer = record {
  error = λ text code s. at_number 9 (("error", text) ∷ []) s;
  status_text = λ code. "Bad Request";
  write = λ body s. s;
}

abbrev seen : Handler Memory
seen r s = at_number 9 (("seen", r.enrollment_id) ∷ []) s

abbrev verify_signature : String → String → Result (Option Certificate)
verify_signature signature body =
    if signature == "signed" then ok (some (record { raw = "c" })) else err (fault "signature")

abbrev verify : Option Certificate → Exec Memory Unit
verify none = raise (fault "missing certificate")
verify (some c) = pure tt

-- the certificate "c" is that of the enrollment "d"
abbrev bound : Memory
bound = at_number 0 (("c.hash_cert", "d") ∷ []) empty

abbrev proxied : String → HttpRequest
proxied signature = record {
  header = λ name. if name == "Mdm-Signature" then signature else "";
  query = [];
  body = ok "<plist/>";
  peer_certificates = none;
  certificate = none;
  enrollment_id = "";
}

abbrev proxy : Handler Memory
proxy = guarded seen writer verify_signature verify (λ c. c.raw) (enrollment_from_hash kv)

runs :
    (proxy (proxied "signed") bound ≡ at_number 9 (("seen", "d") ∷ []) bound)
    × (proxy (proxied "") bound ≡ at_number 9 (("error", "Bad Request") ∷ []) bound)
unfolding cert_extract_mdm_signature_middleware cert_verify_middleware
    cert_with_enrollment_id_middleware enrollment_from_hash fail
runs = (refl, refl)
