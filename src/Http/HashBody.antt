-- ===== src/Http/HashBody.antt =====
-- http/hashbody/hashbody.go and http/hashbody/do.go: clients that put a hash of the body of a request
-- into a header, and that check the one of a response. The hash and the text of it are parameters. Nil
-- arguments, for which the code has defaults or panics, are left out.
pub mod Laws
mod Tests
use nanomdm.Common.{String, Bool, ◌==◌, ◌^^◌, if◌then◌else◌}
use nanomdm.Common.Fault.{Error, Result, ok, err, fault, wrap}
use nanomdm.Common.Exec.{Exec}
use nanomdm.Common.GoMap.{get_or, set}
use nanomdm.Http.Client.{ClientRequest, ClientResponse, Doer}

-- ErrHashBodyHeaderInvalid
abbrev pub err_hash_body_header_invalid : Error
err_hash_body_header_invalid = fault "invalid body hash header"

-- `hash` is the sum of a new hasher of `newHash` over a text; `header` the header's name.
module _ (hash : String → String) (header : String) where
  body_hash_set :
      (String → String) → ClientRequest → Result String → Result (ClientRequest × String)
  body_hash_set encoder req (ok body) =
      let encoded = encoder (hash body) in
      ok (record req { headers = set header encoded req.headers }, encoded)
  body_hash_set encoder req (err e) = err (wrap "getting body" e)

  -- SetBodyHashHeader, with the request that it leaves, whose body can be read again
  unfoldable pub set_body_hash_header :
      (String → String) → ClientRequest → Result (ClientRequest × String)
  unfolding body_hash_set
  set_body_hash_header encoder req =
      if header == "" then err (fault "empty header") else body_hash_set encoder req req.body

  -- the rest of VerifyBodyHashHeader, once the header is decoded
  compare_body : String → Result String → Result (Bool × String)
  compare_body decoded (ok body) = ok (hash body == decoded, body)
  compare_body decoded (err e) = err (wrap "copying body" e)

  compare_header : Result String → Result String → Result (Bool × String)
  unfolding compare_body
  compare_header (ok decoded) body = compare_body decoded body
  compare_header (err e) body = err (wrap ("decoding " ^^ (header ^^ " header")) e)

  -- VerifyBodyHashHeader, with the body that it writes back out
  unfoldable pub verify_body_hash_header :
      (String → Result String) → ClientResponse → Result (Bool × String)
  unfolding compare_header
  verify_body_hash_header decoder resp =
      if header == ""
      then err (fault "empty header")
      else compare_header (decoder (get_or "" header resp.headers)) resp.body

  accept : ClientResponse → Result (Bool × String) → Result ClientResponse
  accept resp (ok (valid, body)) =
      if valid then ok (record resp { body = ok body }) else err err_hash_body_header_invalid
  accept resp (err e) = err (wrap "verify body hash header" e)

  check_response :
      {S : Type 0}
      → (String → Result String)
      → Result ClientResponse × S
      → Result ClientResponse × S
  unfolding accept
  check_response decoder (ok resp, s) = (accept resp (verify_body_hash_header decoder resp), s)
  check_response decoder (err e, s) = (err e, s)

  module _ {S : Type 0} (doer : Doer S) where
    do_hashed : Result (ClientRequest × String) → Exec S ClientResponse
    do_hashed (ok (req, encoded)) s = doer req s
    do_hashed (err e) s = (err (wrap "set body hash header" e), s)

    -- SetBodyHashClient.Do
    unfoldable pub set_body_hash_do : (String → String) → Doer S
    unfolding do_hashed
    set_body_hash_do encoder req s = do_hashed (set_body_hash_header encoder req) s

    -- VerifyBodyHashClient.Do
    unfoldable pub verify_body_hash_do : (String → Result String) → Doer S
    unfolding check_response
    verify_body_hash_do decoder req s = check_response decoder (doer req s)
