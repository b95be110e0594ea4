-- ===== src/Allmulti/Tests.antt =====
-- Two key-value backends in databases of their own behind one storage.
use nanomdm.Common.{ℕ, arith, [], ◌∷◌}
use nanomdm.Bucket.Memory.{Memory}
use nanomdm.Kv.CommandQueue.Tests.{kv}
use nanomdm.Kv.Enrollments.{kv_store, retrieve_push_info, retrieve_token_update_tally}
use nanomdm.Kv.CertHash.{cert_auth_store, enrollment_from_hash}
use nanomdm.Kv.PushCert.{is_push_cert_stale, retrieve_push_cert, store_push_cert}
use nanomdm.Common.{String}
use nanomdm.Common.Exec.{pure}
use nanomdm.Common.Fault.{Result, ok}
use nanomdm.Api.Queue.{enqueuer}
use nanomdm.Allmulti.{AllStorage, all_storage}
use nanomdm.Allmulti.Databases.{
  databases, ServiceMirrors, CertAuthMirrors, ApiMirrors, all_storage-Mirrors,
}

abbrev topic_of : String → Result String
topic_of pem = ok "com.example"

abbrev key_pair : String → String → Result (String × String)
key_pair pem key = ok (pem, key)

abbrev backend : AllStorage Memory (String × String) String
backend = record {
  service = kv_store kv 5;
  cert_auth = cert_auth_store kv;
  retrieve_push_info = retrieve_push_info kv;
  is_push_cert_stale = is_push_cert_stale kv topic_of key_pair;
  retrieve_push_cert = retrieve_push_cert kv topic_of key_pair;
  store_push_cert = store_push_cert kv topic_of key_pair;
  enqueue_command = enqueuer kv;
  enrollment_from_hash = enrollment_from_hash kv;
  retrieve_migration_checkins = pure [];
  retrieve_token_update_tally = retrieve_token_update_tally kv;
}

abbrev stores : ℕ → AllStorage Memory (String × String) String
stores i = backend

-- the second store runs before the first
all_storage-Mirrors_example :
    ServiceMirrors (1 ∷ 0 ∷ []) stores (all_storage (databases stores (1 ∷ []) []))
    × CertAuthMirrors (1 ∷ 0 ∷ []) stores (all_storage (databases stores (1 ∷ []) []))
    × ApiMirrors (1 ∷ 0 ∷ []) stores (all_storage (databases stores (1 ∷ []) []))
all_storage-Mirrors_example =
    all_storage-Mirrors stores (1 ∷ []) [] (((λ e. absurd (omega (arith, e))), tt), (tt, tt))
