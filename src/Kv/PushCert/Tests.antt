-- ===== src/Kv/PushCert/Tests.antt =====
-- A push certificate that replaces another, on a store in memory.
use nanomdm.Common.{String, ◌≡◌, refl, true, false, [], ◌∷◌, arith}
use nanomdm.Common.Fault.{Result, ok}
use nanomdm.Common.Decimal.{itoa}
use nanomdm.Bucket.Memory.{
  Memory, contents, bucket-IsReliable, txn_bucket-CommitsBody, at_number, empty,
}
use nanomdm.Kv.CommandQueue.Tests.{kv}
use nanomdm.Kv.PushCert.{is_push_cert_stale, retrieve_push_cert, store_push_cert}
use nanomdm.Kv.PushCert.Freshness.{store_push_cert-is_push_cert_stale}

abbrev topic_of : String → Result String
topic_of pem = ok "com.example"

abbrev key_pair : String → String → Result (String × String)
key_pair pem key = ok (pem, key)

abbrev seven : Memory
seven = at_number 2 (("com.example.stale_token", "7") ∷ []) empty

store_push_cert-is_push_cert_stale_example :
    (s' : Memory) × (store_push_cert kv topic_of key_pair "<pem>" "<key>" seven ≡ (ok tt, s'))
    × (is_push_cert_stale kv topic_of key_pair "com.example" (itoa 7) s' ≡ (ok true, s'))
    × (retrieve_push_cert kv topic_of key_pair "com.example" s'
        ≡ (ok (("<pem>", "<key>"), itoa 8), s'))
    × (is_push_cert_stale kv topic_of key_pair "com.example" (itoa 8) s' ≡ (ok false, s'))
store_push_cert-is_push_cert_stale_example =
    store_push_cert-is_push_cert_stale kv topic_of key_pair (contents 2) (bucket-IsReliable 2)
      (txn_bucket-CommitsBody 2) "com.example" "<pem>" "<key>" ("<pem>", "<key>") 7 seven refl refl
      refl (omega arith)
