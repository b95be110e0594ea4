-- ===== src/Kv/Backend.antt =====
-- storage/kv/kv.go: the struct of the backend, and the time that an enrollment was last seen.
use nanomdm.Common.{String, Option, none, some, [], ◌∷◌}
use nanomdm.Common.Exec.{Exec}
use nanomdm.Bucket.{Bucket, TxnBucket}
use nanomdm.Mdm.Enroll.{Enrolled}
use nanomdm.Kv.Key.{join}

-- The struct `KV`. `now` is `timeFmt(time.Now())`, read from the state of the world.
pub record Backend (S : Type 0) : Type 0 where
  pub cert_auth : TxnBucket S
  pub queue : TxnBucket S
  pub push_cert : TxnBucket S
  pub users : TxnBucket S
  pub devices : TxnBucket S
  pub enrollments : TxnBucket S
  pub now : S → String

module _ {S : Type 0} (kv : Backend S) where
  last_seen_bucket : Option (Bucket S) → Bucket S
  last_seen_bucket none = kv.enrollments.bucket
  last_seen_bucket (some b) = b

  -- updateLastSeen; `none` is the nil bucket
  unfoldable pub update_last_seen : Enrolled → Option (Bucket S) → Exec S Unit
  unfolding last_seen_bucket
  update_last_seen r b s = (last_seen_bucket b).set (join (r.id ∷ "last_seen_at" ∷ [])) (kv.now s) s
