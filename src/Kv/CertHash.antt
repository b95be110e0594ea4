-- ===== src/Kv/CertHash.antt =====
-- storage/kv/certauth.go: the associations of enrollment IDs and certificate hashes.
pub mod Laws
use nanomdm.Common.{String, Bool, false, [], ◌∷◌, ◌==◌, if◌then◌else◌}
use nanomdm.Common.Fault.{Result, ok, err, is_not_found}
use nanomdm.Common.Exec.{Exec, lift, attempt, ◌>>=◌}
use nanomdm.Mdm.Enroll.{Enrolled}
use nanomdm.Service.{CertAuthStore}
use nanomdm.Kv.Key.{join}
use nanomdm.Kv.Backend.{Backend}

abbrev pub id_key : String → String
id_key id = join (id ∷ "cert_hash" ∷ [])

abbrev pub hash_key : String → String
hash_key hash = join (hash ∷ "hash_cert" ∷ [])

-- `return hash == string(kvHash), err` behind the test for a missing key
abbrev pub same_hash : String → Result String → Result Bool
same_hash hash (ok kv_hash) = ok (hash == kv_hash)
same_hash hash (err e) = if is_not_found e then ok false else err e

-- `return string(r), err` behind the same test
abbrev pub found_id : Result String → Result String
found_id (ok id) = ok id
found_id (err e) = if is_not_found e then ok "" else err e

module _ {S : Type 0} (kv : Backend S) where
  unfoldable pub has_cert_hash : Enrolled → String → Exec S Bool
  has_cert_hash r hash = kv.cert_auth.has (hash_key hash)

  unfoldable pub enrollment_has_cert_hash : Enrolled → String → Exec S Bool
  enrollment_has_cert_hash r _ = kv.cert_auth.has (id_key r.id)

  unfoldable pub is_cert_hash_associated : Enrolled → String → Exec S Bool
  is_cert_hash_associated r hash =
      attempt (kv.cert_auth.get (id_key r.id)) λ got. lift (same_hash hash got)

  unfoldable pub associate_cert_hash : Enrolled → String → Exec S Unit
  associate_cert_hash r hash =
      kv.cert_auth.txn λ b. b.set_map ((id_key r.id, hash) ∷ (hash_key hash, r.id) ∷ [])

  unfoldable pub enrollment_from_hash : String → Exec S String
  enrollment_from_hash hash = attempt (kv.cert_auth.get (hash_key hash)) λ got. lift (found_id got)

  abbrev pub cert_auth_store : CertAuthStore S
  cert_auth_store = record {
    has_cert_hash = has_cert_hash;
    enrollment_has_cert_hash = enrollment_has_cert_hash;
    is_cert_hash_associated = is_cert_hash_associated;
    associate_cert_hash = associate_cert_hash;
  }
