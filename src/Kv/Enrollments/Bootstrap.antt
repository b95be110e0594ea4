-- ===== src/Kv/Enrollments/Bootstrap.antt =====
-- The bootstrap token of storage/kv/bstoken.go, stored and retrieved.
use nanomdm.Common.{String, ◌≡◌, refl, ◌∙◌, ◌≢◌, some, eq_refl, ne_refl}
use nanomdm.Common.Fault.{ok, err, device_channel_only}
use nanomdm.Bucket.{Contents, IsReliable}
use nanomdm.Mdm.Enroll.{Enrolled}
use nanomdm.Mdm.Checkin.{SetBootstrapToken, GetBootstrapToken}
use nanomdm.Kv.Backend.{Backend, update_last_seen}
use nanomdm.Kv.Enrollments.{field, store_bootstrap_token, retrieve_bootstrap_token}

module _ {S : Type 0} (kv : Backend S) (d e : Contents S)
    (devices_ok : IsReliable kv.devices.bucket d)
    (enrollments_ok : IsReliable kv.enrollments.bucket e)
    (apart : (k v : String) (s : S) (j : String) → d.find (e.put k v s) j ≡ d.find s j) where
  -- On stores with no faults, a device's bootstrap token that was stored is what is retrieved for it,
  -- and both calls succeed.
  retrieve_bootstrap_token-store_bootstrap_token :
      (r : Enrolled) (set_msg : SetBootstrapToken) (get_msg : GetBootstrapToken) (s : S)
      → r.parent_id ≡ ""
      → (s' s'' : S) × (store_bootstrap_token kv r set_msg s ≡ (ok tt, s'))
        × (retrieve_bootstrap_token kv r get_msg s' ≡ (ok (some set_msg.bootstrap_token), s''))
  unfolding store_bootstrap_token retrieve_bootstrap_token update_last_seen
  retrieve_bootstrap_token-store_bootstrap_token r set_msg get_msg s device =
      let at = field r.id "last_seen_at" in
      let key = field r.id "bstoken" in
      let token = set_msg.bootstrap_token.bootstrap_token in
      let s1 = e.put at (kv.now s) s in
      let s2 = d.put key token s1 in
      let s3 = e.put at (kv.now s2) s2 in
      let found : d.find s3 key ≡ some token =
        apart at (kv.now s2) s2 key
        ∙ devices_ok.find-put key token s1 key
        ∙ rw (eq_refl key) refl in
      (
        s2,
        s3,
        rw (enrollments_ok.set-eq at (kv.now s) s, device, devices_ok.set-eq key token s1) refl,
        rw (enrollments_ok.set-eq at (kv.now s2) s2, device, devices_ok.get-eq key s3, found) refl,
      )

  -- On stores with no faults, storing or retrieving a bootstrap token for a user channel is refused
  -- as supported on device channels only. The two leave the same store behind, in which the token
  -- key of the enrollment is as it was.
  pub bootstrap_token-device_channel_only :
      (r : Enrolled) (set_msg : SetBootstrapToken) (get_msg : GetBootstrapToken) (s : S)
      → r.parent_id ≢ ""
      → (s' : S) × (store_bootstrap_token kv r set_msg s ≡ (err device_channel_only, s'))
        × (retrieve_bootstrap_token kv r get_msg s ≡ (err device_channel_only, s'))
        × (d.find s' (field r.id "bstoken") ≡ d.find s (field r.id "bstoken"))
  unfolding store_bootstrap_token retrieve_bootstrap_token update_last_seen
  bootstrap_token-device_channel_only r set_msg get_msg s user =
      let at = field r.id "last_seen_at" in
      let test = ne_refl r.parent_id "" user in
      (
        e.put at (kv.now s) s,
        rw (enrollments_ok.set-eq at (kv.now s) s, test) refl,
        rw (enrollments_ok.set-eq at (kv.now s) s, test) refl,
        apart at (kv.now s) s (field r.id "bstoken"),
      )
