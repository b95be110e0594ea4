-- ===== src/Service/DmHook.antt =====
-- service/dmhook/dmhook.go: Declarative Management by calls of an HTTP endpoint. URLs (net/url), the
-- making of a request and the HTTP client are fields of the struct; nil ones are left out.
pub mod Forwarding
mod Tests
use nanomdm.Common.{String, Option, none, some, [], ◌∷◌, not, eqb, ◌==◌, ◌^^◌, if◌then◌else◌}
use nanomdm.Common.Fault.{Result, ok, err, fault, wrap, nil_dereference}
use nanomdm.Common.Exec.{Exec, pure, raise, lift, beside, map_error, ◌>>=◌}
use nanomdm.Common.GoMap.{GoMap, set}
use nanomdm.Http.Client.{ClientRequest, ClientResponse, Doer}
use nanomdm.Http.HashBody.{set_body_hash_do, verify_body_hash_do}
use nanomdm.Mdm.Enroll.{EnrollId, Request, type_name}
use nanomdm.Mdm.Checkin.{DeclarativeManagement}
use nanomdm.Service.{Method}

-- The struct `DMHook`: `resolve` is url.Parse of an endpoint, resolved against the prefix.
pub record DmHook (S : Type 0) : Type 0 where
  pub resolve : String → Result String
  pub new_request : String → String → String → Result ClientRequest
  pub doer : Doer S

abbrev pub hmac_header : String
hmac_header = "X-Hmac-Signature"

-- The options WithSetHMACSecret and WithVerifyHMACSecret, of the HMAC with a key and base64.
unfoldable pub with_set_hmac_secret :
    {S : Type 0} → (String → String) → (String → String) → DmHook S → DmHook S
with_set_hmac_secret hmac encode c = record c {
  doer = set_body_hash_do hmac hmac_header c.doer encode;
}

unfoldable pub with_verify_hmac_secret :
    {S : Type 0} → (String → String) → (String → Result String) → DmHook S → DmHook S
with_verify_hmac_secret hmac decode c = record c {
  doer = verify_body_hash_do hmac hmac_header c.doer decode;
}

-- the headers for an enrollment
abbrev pub enrollment_headers : EnrollId → GoMap String → GoMap String
enrollment_headers eid h =
    let sent = set "X-Enrollment-Type" (type_name eid.type) (set "X-Enrollment-ID" eid.id h) in
    if not (eid.parent_id == "") then set "X-Enrollment-ParentID" eid.parent_id sent else sent

-- `r.EnrollID` where it is dereferenced
enrolled_as : Option EnrollId → Result EnrollId
enrolled_as none = err nil_dereference
enrolled_as (some eid) = ok eid

module _ {S : Type 0} (c : DmHook S) where
  abbrev pub method_of : DeclarativeManagement → String
  method_of m = if not (m.content == "") then "PUT" else "GET"

  abbrev pub content_type : DeclarativeManagement → GoMap String → GoMap String
  content_type m h = if not (m.content == "") then set "Content-Type" "application/json" h else h

  -- the request of a message for an enrollment, of the one that http.NewRequestWithContext makes
  unfoldable pub with_headers : DeclarativeManagement → EnrollId → ClientRequest → ClientRequest
  with_headers m eid req = record req {
    headers = content_type m (enrollment_headers eid req.headers);
  }

  -- The answer: the body of a response with the status 200. The body beside an error is not passed on.
  unfoldable pub answer_of : ClientResponse → Exec S (Option String)
  answer_of resp = map_error (wrap "read body") (lift resp.body) >>= λ body.
      if eqb resp.status_code 200
      then pure (some body)
      else raise (fault ("DM hook HTTP status: " ^^ resp.status))

  -- DeclarativeManagement
  unfoldable pub declarative_management : Method S DeclarativeManagement (Option String)
  unfolding with_headers answer_of enrolled_as
  declarative_management m (q, s) =
      (map_error (wrap "URL parsing endpoint") (lift (c.resolve m.endpoint)) >>= λ url.
      map_error (wrap "creating request") (lift (c.new_request (method_of m) url m.content))
      >>= λ req. lift (enrolled_as q.enroll_id) >>= λ eid.
          map_error (wrap "do DM hook") (beside (c.doer (with_headers m eid req))) >>= λ resp.
          beside (answer_of resp))
        (q, s)
