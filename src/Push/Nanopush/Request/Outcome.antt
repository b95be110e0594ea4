-- ===== src/Push/Nanopush/Request/Outcome.antt =====
-- When push/nanopush/provider.go reports a push as sent.
use nanomdm.Common.{ℕ, String, ◌≡◌, refl, ap, ◌∙◌, ◌^^◌, ◌↔◌, none, arith}
use nanomdm.Common.Fault.{Result, ok, err}
use nanomdm.Mdm.Checkin
use nanomdm.Http.Client.{ClientRequest, ClientResponse}
use nanomdm.Push.Nanopush.Request.{
  Answer, responded, go_away, failed, Provider, JsonPushError, response_of, with_headers,
  made_request, do_push,
}

module _ (decode : Result String → Result JsonPushError) {S : Type 0} (p : Provider S)
    (token_text : String → String) (new_request : String → String → String → Result ClientRequest)
    (expires : S → ℕ → String) where
  answered :
      (a : Answer)
      → ((response_of decode p token_text new_request expires a).error ≡ none)
        ↔ ((resp : ClientResponse) × (a ≡ responded resp) × (resp.status_code ≡ 200))
  unfolding response_of
  answered (responded resp) = (
    (λ h. (resp, refl, ground arith)),
    (λ h.
        let same : resp ≡ h.0 = cc (h.1) in
        let code = ap (λ (r : ClientResponse). r.status_code) same ∙ h.2 in rw code refl),
  )
  answered (go_away text code) = (λ h. cc, λ h. cc (h.1))
  answered (failed e) = (λ h. cc, λ h. cc (h.1))

  requested :
      (info : Checkin.Push) (made : Result ClientRequest) (s : S)
      → ((made_request decode p token_text new_request expires made s).0.error ≡ none) ↔ (
          (req : ClientRequest) × (resp : ClientResponse) × (made ≡ ok req)
          × ((p.client (with_headers decode p token_text new_request expires s req) s).0
              ≡ responded resp)
          × (resp.status_code ≡ 200))
  unfolding made_request
  requested info (err e) s = (λ h. cc, λ h. cc (h.2))
  requested info (ok req) s =
      let sent = with_headers decode p token_text new_request expires s req in
      let answer = answered (p.client sent s).0 in
      (
        (λ h. let (resp, e, code) = answer.0 h in (req, resp, refl, e, code)),
        (λ h.
            let same : req ≡ h.0 = cc (h.2) in
            answer.1 (
              h.1,
              ap
                    (λ (q : ClientRequest).
                      (p.client (with_headers decode p token_text new_request expires s q) s).0)
                    same
                  ∙ h.3,
              h.4,
            )),
      )

  -- A push has a response without an error exactly where a request of it could be made, to the
  -- device's URL with the push magic as its payload, and the client was answered with the status 200.
  pub do_push-error :
      (info : Checkin.Push) (s : S)
      → ((do_push decode p token_text new_request expires info s).0.error ≡ none) ↔ (
          (req : ClientRequest) × (resp : ClientResponse) × (new_request "POST"
              (p.base_url ^^ ("/3/device/" ^^ token_text info.token))
              ("{\"mdm\":\"" ^^ (info.push_magic ^^ "\"}"))
            ≡ ok req)
          × ((p.client (with_headers decode p token_text new_request expires s req) s).0
              ≡ responded resp)
          × (resp.status_code ≡ 200))
  unfolding do_push
  do_push-error info s = requested info _ s
