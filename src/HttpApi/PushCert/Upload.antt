-- ===== src/HttpApi/PushCert/Upload.antt =====
-- A push certificate that is uploaded over http/api/pushcert.go to the key-value backend, and asked for.
use nanomdm.Common.{ℕ, ◌+◌, ◌<◌, String, ◌≡◌, ◌≢◌, refl, some, ne_refl}
use nanomdm.Common.Fault.{Error, Result, ok, ◌>>=◌}
use nanomdm.Common.Decimal.{itoa, half}
use nanomdm.Bucket.{Contents, IsReliable, CommitsBody}
use nanomdm.Kv.Backend.{Backend}
use nanomdm.Kv.PushCert.{store_push_cert, retrieve_push_cert, stale_token_key}
use nanomdm.Kv.PushCert.Freshness.{store_push_cert-is_push_cert_stale}
use nanomdm.HttpApi.{ApiRequest, JsonWriter, write_json, push_cert_response}
use nanomdm.HttpApi.PushCert.{
  Pem, read_pem_cert_and_key, push_cert_endpoint, retrieve_push_cert_handler, pair_response,
  leaf_response, store_push_cert_handler, store_body, store_read, store_checked, checked,
  stored_response,
}

module _ {S Cert Pair : Type 0} (p : Pem Cert Pair) (w : JsonWriter S) (error_text : Error → String)
    (kv : Backend S) (c : Contents S) (rel : IsReliable kv.push_cert.bucket c)
    (commits : CommitsBody kv.push_cert) where
  -- the topic of a PEM-encoded certificate
  abbrev topic_of_pem : String → Result String
  topic_of_pem pem = p.decode pem >>= λ cert. p.topic_of cert

  abbrev pub endpoint : ApiRequest → S → S
  endpoint =
      push_cert_endpoint p w error_text (store_push_cert kv topic_of_pem p.key_pair)
        (retrieve_push_cert kv topic_of_pem p.key_pair)

  -- On stores with no faults, an upload of a certificate with its key, usable as a pair, to a topic
  -- whose kept number is n, with n + 1 below 2^63, is answered with the status 200, the topic and the
  -- certificate's expiry, and so is the request for the topic on the store that it leaves.
  pub push_cert_endpoint-upload :
      (put ask : ApiRequest) (input pem key topic : String) (cert : Cert) (pair : Pair) (n : ℕ)
      (s : S)
      → put.method ≡ "PUT"
      → ask.method ≡ "GET"
      → put.body ≡ ok input
      → ask.query "topic" ≡ topic
      → topic ≢ ""
      → read_pem_cert_and_key p input ≡ ok (pem, key)
      → p.key_pair pem key ≡ ok pair
      → p.decode pem ≡ ok cert
      → p.topic_of cert ≡ ok topic
      → p.parse_leaf pair ≡ ok cert
      → c.find s (stale_token_key topic) ≡ some (itoa n)
      → n + 1 < half
      → (s' : S) × (endpoint put s
          ≡ write_json w (push_cert_response topic (p.not_after cert)) 200 s')
        × (endpoint ask s' ≡ write_json w (push_cert_response topic (p.not_after cert)) 200 s')
  unfolding push_cert_endpoint store_push_cert_handler retrieve_push_cert_handler store_body
      store_read store_checked checked stored_response pair_response leaf_response
  push_cert_endpoint-upload put ask input pem key topic cert pair n s is_put is_get body asked named
        read usable decoded topical leaf kept fits =
      let (s', stored, stale, found, fresh) =
        store_push_cert-is_push_cert_stale kv topic_of_pem p.key_pair c rel commits topic pem key
          pair n s (rw (decoded) topical) usable kept fits in
      (
        s',
        rw (is_put, body, read, usable, decoded, topical, stored) refl,
        rw (is_get, asked, ne_refl topic "" named, found, leaf) refl,
      )
