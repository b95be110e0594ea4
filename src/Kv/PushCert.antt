-- ===== src/Kv/PushCert.antt =====
-- storage/kv/pushcert.go: push certificates by topic, with a number that tells when they are replaced.
-- Parsing certificates (crypto/tls, and cryptoutil.TopicFromPEMCert over crypto/x509) is a parameter.
pub mod Freshness
mod Tests
use Prim.Native.Nat.{◌%◌}
use nanomdm.Common.{
  ℕ, ◌+◌, String, Bool, not, List, [], ◌∷◌, ◌==◌, ◌^^◌, lookup_text, if◌then◌else◌,
}
use nanomdm.Common.Fault.{Result, ok, err, wrap, is_not_found}
use nanomdm.Common.Exec.{Exec, pure, lift, attempt, ◌>>=◌}
use nanomdm.Common.Decimal.{word, atoi, atoi_fails, itoa}
use nanomdm.Bucket.{Bucket}
use nanomdm.Kv.Key.{join}
use nanomdm.Kv.Backend.{Backend}

abbrev pub pem_key : String → String
pem_key topic = join (topic ∷ "pem" ∷ [])

abbrev pub private_key : String → String
private_key topic = join (topic ∷ "key" ∷ [])

abbrev pub stale_token_key : String → String
stale_token_key topic = join (topic ∷ "stale_token" ∷ [])

-- the number to store, by what was read: 0 at first and where it was no number
abbrev pub next_token : String → Result String → Result ℕ
next_token topic (ok bytes) = ok (if atoi_fails bytes then 0 else (atoi bytes + 1) % word)
next_token topic (err e) =
    if is_not_found e then ok 0 else err (wrap ("getting token for topic: " ^^ topic) e)

module _ {S Cert : Type 0} (kv : Backend S) (topic_of : String → Result String)
    (key_pair : String → String → Result Cert) where
  -- IsPushCertStale; Go returns true or false beside an error too
  unfoldable pub is_push_cert_stale : String → String → Exec S Bool
  is_push_cert_stale topic stale_token =
      kv.push_cert.get (stale_token_key topic) >>= λ bytes. pure (not (stale_token == bytes))

  -- RetrievePushCert
  unfoldable pub retrieve_push_cert : String → Exec S (Cert × String)
  retrieve_push_cert topic = do
    m ← kv.push_cert.get_map (pem_key topic ∷ private_key topic ∷ stale_token_key topic ∷ [])
    cert ← lift (key_pair (lookup_text (pem_key topic) m) (lookup_text (private_key topic) m))
    pure (cert, lookup_text (stale_token_key topic) m)

  -- the body of the transaction of StorePushCert
  unfoldable pub store_body : String → String → String → Bucket S → Exec S Unit
  store_body topic pem_cert pem_key_text b = attempt (b.get (stale_token_key topic)) λ got.
      lift (next_token topic got) >>= λ token. b.set_map (
        (pem_key topic, pem_cert)
        ∷ (private_key topic, pem_key_text)
        ∷ (stale_token_key topic, itoa token)
        ∷ [])

  -- StorePushCert
  unfoldable pub store_push_cert : String → String → Exec S Unit
  unfolding store_body
  store_push_cert pem_cert pem_key_text = lift (topic_of pem_cert) >>= λ topic.
      kv.push_cert.txn (store_body topic pem_cert pem_key_text)
