-- ===== src/Http/AuthProxy/Identified.antt =====
-- The proxy of http/authproxy behind the middleware of http/mdm/mdm_cert.go.
use nanomdm.Common.{String, ◌≡◌, ◌≢◌, Bool, Option, some, List, if◌then◌else◌, All}
use nanomdm.Common.Fault.{Result, ok}
use nanomdm.Common.Exec.{Exec}
use nanomdm.Mdm.Enroll.{Certificate}
use nanomdm.Http.{HttpRequest, Writer, Handler}
use nanomdm.Http.Identity.Guard.{guarded, Refused, Presents}
use nanomdm.Http.AuthProxy.{Config, HeaderFunc, auth_proxy}

abbrev Funcs : Type 0
Funcs = List (String × HeaderFunc)

-- no function of the list is for the header
abbrev pub Without : String → Funcs → Type 0
Without k fns = All (λ (f : String × HeaderFunc). k ≢ f.0) fns

-- What httputil.ReverseProxy makes of the Director's request before it sends it: it removes the
-- headers that the request's Connection header lists, and others, of which this is none.
abbrev pub Strips : (HttpRequest → HttpRequest) → (String → String → Bool) → Type 0
Strips strip lists =
    (q : HttpRequest)
    → (strip q).header "X-Enrollment-ID"
      ≡ (if lists (q.header "Connection") "X-Enrollment-ID" then "" else q.header "X-Enrollment-ID")

-- the director of the proxy itself keeps the context of a request and its Connection header
abbrev pub Keeps : (HttpRequest → HttpRequest) → Type 0
Keeps dir =
    (q : HttpRequest)
    → ((dir q).enrollment_id ≡ q.enrollment_id)
      × ((dir q).header "Connection" ≡ q.header "Connection")

module _ {S : Type 0} (c : Config) (host : String) (dir strip : HttpRequest → HttpRequest)
    (lists : String → String → Bool) (send : String × HttpRequest → S → S) (w : Writer S)
    (verify_signature : String → String → Result (Option Certificate))
    (verify : Option Certificate → Exec S Unit) (hash : Certificate → String)
    (from_hash : String → Exec S String) where
  -- the proxy after its Director
  abbrev pub forward : String × HttpRequest → S → S
  forward (to, q) = send (to, strip q)

  abbrev pub proxied : Handler S
  proxied = guarded (auth_proxy c host dir forward) w verify_signature verify hash from_hash

  abbrev pub IsRefused : S → Type 0
  IsRefused = Refused (auth_proxy c host dir forward) w verify_signature verify hash from_hash

  -- The request that is sent has the ID, the store's for the certificate, as its header, or nothing
  -- where the Connection header of the request that came in lists that header.
  abbrev pub Identified : HttpRequest → S → S → Type 0
  Identified r s t =
      (cert : Certificate) × (id : String) × (s1 : S) × (s2 : S) × (out : HttpRequest) × Presents
        (auth_proxy c host dir forward) w verify_signature verify hash from_hash r cert
      × (verify (some cert) s ≡ (ok tt, s1))
      × (from_hash (hash cert) s1 ≡ (ok id, s2))
      × (id ≢ "")
      × (out.header "X-Enrollment-ID"
          ≡ (if lists (r.header "Connection") "X-Enrollment-ID" then "" else id))
      × (t ≡ send (host, out) s2)
