-- ===== src/Service/DmHook/Forwarding.antt =====
-- What service/dmhook/dmhook.go answers when its client checks the HMAC of the endpoint's answers.
use nanomdm.Common.{String, ◌≡◌, refl, ap, ◌∙◌, ◌↔◌, Option, some, arith, ne_of_test}
use nanomdm.Common.Fault.{Result, ok, err, wrap}
use nanomdm.Common.Exec.{beside, map_error, ◌>>=◌}
use nanomdm.Common.GoMap.{get_or}
use nanomdm.Http.Client.{ClientRequest, ClientResponse}
use nanomdm.Http.HashBody.Laws.{verify_body_hash_do-IsSigned}
use nanomdm.Mdm.Enroll.{EnrollId, Request}
use nanomdm.Mdm.Checkin.{DeclarativeManagement}
use nanomdm.Service.DmHook.{
  DmHook, with_verify_hmac_secret, declarative_management, with_headers, method_of, answer_of,
  hmac_header, enrolled_as,
}

module _ {S : Type 0} (c : DmHook S) (q : Request) (body : String) (t : S) where
  -- the call with a response, or with the client's error
  answered : Result ClientResponse × S → Result (Option String) × (Request × S)
  answered (r, s) =
      (map_error (wrap "do DM hook") (λ _. (r, (q, s))) >>= λ resp. beside (answer_of c resp))
        (q, s)

  response-answered :
      (resp : ClientResponse) (r : Result String) (u : S)
      → (answered (ok (record resp { body = r }), u) ≡ (ok (some body), (q, t)))
        ↔ ((r ≡ ok body) × (resp.status_code ≡ 200) × (u ≡ t))
  unfolding answered answer_of
  response-answered resp (err e) u = (λ h. cc, λ h. cc (h.0))
  response-answered resp (ok text) u =
      (λ h. (ground arith, ground arith, ground arith), λ h. ground (arith, h.0, h.1, h.2))

  call-answered :
      (out : Result ClientResponse × S)
      → (answered out ≡ (ok (some body), (q, t))) ↔ (
          (resp : ClientResponse) × (out ≡ (ok resp, t))
          × (resp.body ≡ ok body)
          × (resp.status_code ≡ 200))
  unfolding answered
  call-answered (err e, u) = (λ h. cc, λ h. cc (ap (λ (o : Result ClientResponse × S). o.0) h.1))
  call-answered (ok resp, u) = (
    λ h.
        let (b, code, e) = (response-answered resp resp.body u).0 h in
        (resp, (λ i. (ok resp, e i)), b, code),
    λ h.
        let same : resp ≡ h.0 = ground (arith, h.1) in
        (response-answered resp resp.body u).1 (
          ap (λ (r : ClientResponse). r.body) same ∙ h.2,
          ap (λ (r : ClientResponse). r.status_code) same ∙ h.3,
          ap (λ (o : Result ClientResponse × S). o.1) h.1,
        ),
  )

-- A hook with WithVerifyHMACSecret, for a message of an enrollment whose endpoint is a URL and of
-- which a request can be made: it answers with a body exactly where its client, sent that request
-- with the enrollment's headers, has answered with the status 200 and that body, and the response's
-- HMAC header decodes to the HMAC of the body.
pub declarative_management-IsSigned :
    {S : Type 0} (c : DmHook S) (q : Request) (body : String) (s t : S) (hmac : String → String)
    (decode : String → Result String) (m : DeclarativeManagement) (eid : EnrollId) (url : String)
    (req : ClientRequest)
    → q.enroll_id ≡ some eid
    → c.resolve m.endpoint ≡ ok url
    → c.new_request (method_of c m) url m.content ≡ ok req
    → (declarative_management (with_verify_hmac_secret hmac decode c) m (q, s)
        ≡ (ok (some body), (q, t)))
      ↔ ((resp : ClientResponse) × (c.doer (with_headers c m eid req) s ≡ (ok resp, t))
          × (resp.status_code ≡ 200)
          × (resp.body ≡ ok body)
          × (decode (get_or "" hmac_header resp.headers) ≡ ok (hmac body)))
unfolding declarative_management with_verify_hmac_secret with_headers enrolled_as answered answer_of
declarative_management-IsSigned {S} c q body s t hmac decode m eid url req e r n =
    let checked = with_verify_hmac_secret hmac decode c in
    let sent = with_headers c m eid req in
    let call =
      call-answered checked (record q { enroll_id = some eid }) body t (checked.doer sent s) in
    let signed = λ (resp : ClientResponse).
      verify_body_hash_do-IsSigned hmac hmac_header (ne_of_test hmac_header "" refl) c.doer decode
        sent resp s t in
    rw (r, n, e)
      (
        (λ h.
            let (resp, out, b, code) = call.0 h in
            let (up, (x, bx, d)) = (signed resp).0 out in
            let same : x ≡ body = cc (bx, b) in
            (resp, up, code, b, d ∙ ap (λ y. ok (hmac y)) same)),
        (λ h. call.1 (h.0, (signed h.0).1 (h.1, (body, h.3, h.4)), h.3, h.2)),
      )
