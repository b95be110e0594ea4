-- ===== src/Kv/PushCert/Freshness.antt =====
-- What a push certificate that is stored does to the stale tokens that were handed out before.
use Prim.Native.Nat.{◌%◌}
use nanomdm.Common.{
  ℕ, ◌+◌, ◌<◌, String, ◌≡◌, refl, ap, ◌∙◌, true, false, Option, some, ne_refl, ne_of_test, eq_refl,
  arith,
}
use nanomdm.Common.Fault.{Result, ok}
use nanomdm.Common.Decimal.{word, half, itoa}
use nanomdm.Common.Decimal.Bounds.{atoi-itoa, atoi_fails-itoa, itoa-next}
use nanomdm.Bucket.{Contents, IsReliable, CommitsBody, got}
use nanomdm.Kv.Backend.{Backend}
use nanomdm.Kv.Fields.{set_map-get_map, lookup_three}
use nanomdm.Kv.PushCert.{
  stale_token_key, next_token, is_push_cert_stale, retrieve_push_cert, store_body, store_push_cert,
}

-- the token behind a number that fits an int64
next_token-itoa :
    (topic : String) (n : ℕ) → n + 1 < half → next_token topic (ok (itoa n)) ≡ ok (n + 1)
next_token-itoa topic n lt =
    rw (atoi_fails-itoa n (omega arith), atoi-itoa n (omega arith))
      (ap (λ (k : ℕ). ok k) {x = (n + 1) % word} {y = n + 1} (omega arith))

module _ {S Cert : Type 0} (kv : Backend S) (topic_of : String → Result String)
    (key_pair : String → String → Result Cert) (c : Contents S)
    (rel : IsReliable kv.push_cert.bucket c) (commits : CommitsBody kv.push_cert) where
  -- On stores with no faults: where the number kept for the topic of a certificate is n, with n + 1
  -- below 2^63, and the certificate and its key are usable as a pair, StorePushCert of them succeeds,
  -- the token of number n is stale afterwards, and RetrievePushCert returns the pair with a token that
  -- is not.
  pub store_push_cert-is_push_cert_stale :
      (topic pem key : String) (cert : Cert) (n : ℕ) (s : S)
      → topic_of pem ≡ ok topic
      → key_pair pem key ≡ ok cert
      → c.find s (stale_token_key topic) ≡ some (itoa n)
      → n + 1 < half
      → (s' : S) × (store_push_cert kv topic_of key_pair pem key s ≡ (ok tt, s'))
        × (is_push_cert_stale kv topic_of key_pair topic (itoa n) s' ≡ (ok true, s'))
        × (retrieve_push_cert kv topic_of key_pair topic s' ≡ (ok (cert, itoa (n + 1)), s'))
        × (is_push_cert_stale kv topic_of key_pair topic (itoa (n + 1)) s' ≡ (ok false, s'))
  unfolding store_push_cert is_push_cert_stale retrieve_push_cert store_body
  store_push_cert-is_push_cert_stale topic pem key cert n s named pair kept fits =
      let pk = ne_of_test "pem" "key" refl in
      let ps = ne_of_test "pem" "stale_token" refl in
      let ks = ne_of_test "key" "stale_token" refl in
      let token = itoa (n + 1) in
      let k = stale_token_key topic in
      let (s', written, read, last) =
        set_map-get_map kv.push_cert.bucket c rel topic "pem" "key" "stale_token" pem key token s pk
          ps ks in
      let (a, b, d) = lookup_three topic "pem" "key" "stale_token" pem key token pk ps ks in
      let next : next_token topic (got (c.find s k)) ≡ ok (n + 1) =
        ap (λ (o : Option String). next_token topic (got o)) kept ∙ next_token-itoa topic n fits in
      let body : store_body kv topic_of key_pair topic pem key kv.push_cert.bucket s ≡ (ok tt, s') =
        rw (rel.get-eq k s, next, written) refl in
      let stored = commits.txn-eq (store_body kv topic_of key_pair topic pem key) s s' body in
      (
        s',
        rw (named, stored) refl,
        rw (rel.get-eq k s', last, ne_refl (itoa n) token (itoa-next n fits)) refl,
        rw (read, a, b, pair, d) refl,
        rw (rel.get-eq k s', last, eq_refl token) refl,
      )
