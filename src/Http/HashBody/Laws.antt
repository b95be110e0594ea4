-- ===== src/Http/HashBody/Laws.antt =====
-- What the clients of http/hashbody accept, and that they understand one another.
use nanomdm.Common.{
  String, ◌≡◌, ◌≢◌, refl, ap, sym, ◌∙◌, ◌↔◌, inl, inr, ◌==◌, ne_refl, eq_iff, eq_refl, List,
  text-cases, arith,
}
use mathlib.Core.Path.{subst}
use nanomdm.Common.Fault.{Result, ok, err}
use nanomdm.Common.GoMap.{get_or, set, get-set}
use nanomdm.Http.Client.{ClientRequest, ClientResponse, Doer}
use nanomdm.Http.HashBody.{
  set_body_hash_header, body_hash_set, verify_body_hash_header, compare_header, compare_body,
  verify_body_hash_do, check_response, accept,
}

get_or-set : (k v : String) (m : List (String × String)) → get_or "" k (set k v m) ≡ v
get_or-set k v m = ground (arith, get-set k k v m, eq_refl k)

module _ (hash : String → String) (header : String) (named : header ≢ "") where
  -- the response has a body whose hash is in the header
  abbrev pub IsSigned : (String → Result String) → ClientResponse → Type 0
  IsSigned decoder resp =
      (body : String) × (resp.body ≡ ok body)
      × (decoder (get_or "" header resp.headers) ≡ ok (hash body))

  accept-IsSigned :
      (decoder : String → Result String) (resp : ClientResponse)
      → IsSigned decoder resp
      → accept hash header resp (verify_body_hash_header hash header decoder resp) ≡ ok resp
  unfolding accept verify_body_hash_header compare_header compare_body
  accept-IsSigned decoder resp (body, b, d) =
      ground (arith, ne_refl header "" named, b, d, eq_iff (hash body) (hash body))

  ok-injective : {A : Type 0} (a b : A) → ok a ≡ ok b → a ≡ b
  ok-injective a b e = cc

  equal_hashes :
      (resp resp' : ClientResponse) (decoded body : String)
      → accept hash header resp (ok (hash body == decoded, body)) ≡ ok resp'
      → (hash body ≡ decoded) × (record resp { body = ok body } ≡ resp')
  unfolding accept
  equal_hashes resp resp' decoded body e = elim (text-cases (hash body) decoded) [
    | inl p ↦ (p, ok-injective _ resp' (rw ((eq_iff (hash body) decoded).1 p) at e))
    | inr n ↦ let f = rw n.1 at e in cc f
  ]

  compared-IsSigned :
      (decoder : String → Result String) (resp resp' : ClientResponse)
      (decoded body : Result String)
      → decoder (get_or "" header resp.headers) ≡ decoded
      → resp.body ≡ body
      → accept hash header resp (compare_header hash header decoded body) ≡ ok resp'
      → IsSigned decoder resp × (resp' ≡ resp)
  unfolding accept compare_header compare_body
  compared-IsSigned decoder resp resp' (err x) body d b e = cc
  compared-IsSigned decoder resp resp' (ok decoded) (err x) d b e = cc
  compared-IsSigned decoder resp resp' (ok decoded) (ok body) d b e =
      let (same, back) = equal_hashes resp resp' decoded body e in
      (
        (body, b, d ∙ ap (λ (x : String). ok x) (sym same)),
        sym back ∙ ap (λ (r : Result String). record resp { body = r }) (sym b),
      )

  accepted_IsSigned :
      (decoder : String → Result String) (resp resp' : ClientResponse)
      → accept hash header resp (verify_body_hash_header hash header decoder resp) ≡ ok resp'
      → IsSigned decoder resp × (resp' ≡ resp)
  unfolding verify_body_hash_header
  accepted_IsSigned decoder resp resp' e =
      compared-IsSigned decoder resp resp' _ resp.body refl refl (rw (ne_refl header "" named) at e)

  checked-IsSigned :
      {S : Type 0} (decoder : String → Result String) (resp : ClientResponse) (t : S)
      (out : Result ClientResponse × S)
      → (check_response hash header decoder out ≡ (ok resp, t))
        ↔ ((out ≡ (ok resp, t)) × IsSigned decoder resp)
  unfolding check_response
  checked-IsSigned decoder resp t (err x, u) = (λ e. cc (ap (λ o. o.0) e), λ h. cc (h.0))
  checked-IsSigned {S} decoder resp t (ok r, u) = (
    λ e.
        let (signed, back) =
          accepted_IsSigned decoder r resp (ap (λ (o : Result ClientResponse × S). o.0) e) in
        ((λ i. (ok (sym back i), (e i).1)), subst (λ x. IsSigned decoder x) (sym back) signed),
    λ h.
        let same = ok-injective r resp (ap (λ (o : Result ClientResponse × S). o.0) h.0) in
        (λ i. (
          (accept-IsSigned decoder r (subst (λ x. IsSigned decoder x) (sym same) h.1)
                ∙ ap (λ (x : ClientResponse). ok x) same)
              i,
          (h.0 i).1,
        )),
  )

  -- The client that verifies answers with a response exactly where its upstream client does, with the
  -- same one and the same state, and the response has a body that can be read and whose hash is what
  -- the header named `header` decodes to.
  pub verify_body_hash_do-IsSigned :
      {S : Type 0} (doer : Doer S) (decoder : String → Result String) (req : ClientRequest)
      (resp : ClientResponse) (s t : S)
      → (verify_body_hash_do hash header doer decoder req s ≡ (ok resp, t))
        ↔ ((doer req s ≡ (ok resp, t)) × IsSigned decoder resp)
  unfolding verify_body_hash_do
  verify_body_hash_do-IsSigned doer decoder req resp s t =
      checked-IsSigned decoder resp t (doer req s)

  -- With a header that has a name, and a decoder that reverses the encoder, SetBodyHashHeader of a
  -- request whose body can be read succeeds and keeps the body, and VerifyBodyHashHeader of a response
  -- with the headers that it set and a body that can be read returns the body and whether its hash is
  -- that of the request's body.
  pub verify_body_hash_header-set_body_hash_header :
      (encoder : String → String) (decoder : String → Result String)
      → ((text : String) → decoder (encoder text) ≡ ok text)
      → (req : ClientRequest) (body : String) → req.body ≡ ok body
      → (sent : ClientRequest) × (set_body_hash_header hash header encoder req
          ≡ ok (sent, encoder (hash body)))
        × (sent.body ≡ ok body)
        × ((resp : ClientResponse) (answer : String)
            → resp.headers ≡ sent.headers
            → resp.body ≡ ok answer
            → verify_body_hash_header hash header decoder resp
              ≡ ok (hash answer == hash body, answer))
  unfolding set_body_hash_header body_hash_set verify_body_hash_header compare_header compare_body
  verify_body_hash_header-set_body_hash_header encoder decoder inverse req body b = (
    record req { headers = set header (encoder (hash body)) req.headers },
    rw (ne_refl header "" named, b) refl,
    b,
    λ resp answer h a.
        rw
          (
            ne_refl header "" named,
            h,
            a,
            get_or-set header (encoder (hash body)) req.headers,
            inverse (hash body),
          )
          refl,
  )
