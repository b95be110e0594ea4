-- ===== src/Http/AuthProxy/Tests.antt =====
-- A request with an enrollment ID of its own making, and the one that the proxy sends on.
use nanomdm.Common.{
  String, ◌≡◌, refl, Option, none, some, Bool, false, ◌||◌, [], ◌∷◌, ◌==◌, if◌then◌else◌,
}
use nanomdm.Common.Fault.{Result, ok, err, fault}
use nanomdm.Common.Exec.{Exec, pure, raise}
use nanomdm.Bucket.Memory.{Memory, at_number, empty}
use nanomdm.Mdm.Enroll.{Certificate}
use nanomdm.Kv.CommandQueue.Tests.{kv}
use nanomdm.Kv.CertHash.{enrollment_from_hash}
use nanomdm.Http.{HttpRequest, Writer, fail}
use nanomdm.Http.Identity.{
  cert_extract_mdm_signature_middleware, cert_verify_middleware, cert_with_enrollment_id_middleware,
}
use nanomdm.Http.AuthProxy.{Config, director, auth_proxy, set_headers}
use nanomdm.Http.AuthProxy.Identified.{proxied, Identified}

abbrev writer : Writer Memory
writer = record {
  error = λ text code s. at_number 9 (("error", text) ∷ []) s;
  status_text = λ code. "Bad Request";
  write = λ body s. s;
}

-- the two functions that the server sets
abbrev config : Config
config = record {
  fwd_sig = false;
  header_funcs = ("X-Enrollment-ID", λ q. q.enrollment_id) ∷ ("X-Trace-ID", λ q. "trace") ∷ [];
}

-- an upstream that keeps the ID it was sent
abbrev upstream : String × HttpRequest → Memory → Memory
upstream (host, r) s = at_number 9 (("seen", r.header "X-Enrollment-ID") ∷ []) s

-- the removal of hop-by-hop headers, for a Connection header with at most one name
abbrev lists : String → String → Bool
lists connection name = connection == name

abbrev strip : HttpRequest → HttpRequest
strip r = record r {
  header = λ name.
      if name == "Connection" || lists (r.header "Connection") name then "" else r.header name;
}

abbrev verify_signature : String → String → Result (Option Certificate)
verify_signature signature body =
    if signature == "signed" then ok (some (record { raw = "c" })) else err (fault "signature")

abbrev verify : Option Certificate → Exec Memory Unit
verify none = raise (fault "missing certificate")
verify (some c) = pure tt

abbrev bound : Memory
bound = at_number 0 (("c.hash_cert", "d") ∷ []) empty

abbrev spoofed : HttpRequest
spoofed = record {
  header = λ name.
      if name == "Mdm-Signature" then "signed" else if name == "X-Enrollment-ID" then "e" else "";
  query = [];
  body = ok "<plist/>";
  peer_certificates = none;
  certificate = none;
  enrollment_id = "";
}

-- the same, with a Connection header that lists the header of the ID
abbrev dropping : HttpRequest
dropping = record spoofed {
  header = λ name. if name == "Connection" then "X-Enrollment-ID" else spoofed.header name;
}

sent :
    (proxied config "a"
        (λ r. r)
        strip
        lists
        upstream
        writer
        verify_signature
        verify
        (λ c. c.raw)
        (enrollment_from_hash kv)
        spoofed
        bound
      ≡ at_number 9 (("seen", "d") ∷ []) bound)
    × (proxied config "a"
          (λ r. r)
          strip
          lists
          upstream
          writer
          verify_signature
          verify
          (λ c. c.raw)
          (enrollment_from_hash kv)
          dropping
          bound
        ≡ at_number 9 (("seen", "") ∷ []) bound)
unfolding cert_extract_mdm_signature_middleware cert_verify_middleware
    cert_with_enrollment_id_middleware enrollment_from_hash fail director auth_proxy set_headers
sent = (refl, refl)
