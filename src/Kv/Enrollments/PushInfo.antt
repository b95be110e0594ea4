-- ===== src/Kv/Enrollments/PushInfo.antt =====
-- The push details of storage/kv/push.go, written and read back.
use nanomdm.Common.{String, ◌≡◌, refl, [], ◌∷◌, ne_of_test}
use nanomdm.Common.Fault.{ok}
use nanomdm.Bucket.{Contents, IsReliable}
use nanomdm.Mdm.Checkin.{TokenUpdate}
use nanomdm.Kv.Backend.{Backend}
use nanomdm.Kv.Fields.{set_map-get_map, lookup_three}
use nanomdm.Kv.Enrollments.{store_push_info, push_of, retrieve_push_info}

module _ {S : Type 0} (kv : Backend S) (c : Contents S)
    (rel : IsReliable kv.enrollments.bucket c) where
  -- On stores with no faults, `RetrievePushInfo` of an enrollment returns the topic, the push magic
  -- and the token that `storePushInfo` last stored for it.
  retrieve_push_info-store_push_info :
      (id : String) (msg : TokenUpdate) (s : S)
      → (s' : S) × (store_push_info kv.enrollments.bucket id msg s ≡ (ok tt, s'))
        × (retrieve_push_info kv (id ∷ []) s' ≡ (ok ((id, msg.push) ∷ []), s'))
  unfolding store_push_info retrieve_push_info push_of
  retrieve_push_info-store_push_info id msg s =
      let m = msg.push in
      let tm = ne_of_test "topic" "push_magic" refl in
      let to = ne_of_test "topic" "token" refl in
      let mt = ne_of_test "push_magic" "token" refl in
      let (s', written, read, last) =
        set_map-get_map kv.enrollments.bucket c rel id "topic" "push_magic" "token" m.topic
          m.push_magic m.token s tm to mt in
      let (a, b, d) =
        lookup_three id "topic" "push_magic" "token" m.topic m.push_magic m.token tm to mt in
      (s', written, rw (read, a, b, d) refl)
