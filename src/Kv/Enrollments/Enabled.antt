-- ===== src/Kv/Enrollments/Enabled.antt =====
-- What StoreTokenUpdate (mdm.go) does to an enrollment.
use Prim.Native.Nat.{◌%◌}
use nanomdm.Common.{
  ℕ, String, ◌≡◌, refl, ◌∙◌, Bool, true, false, Option, none, some, [], ◌∷◌, ◌==◌, if◌then◌else◌,
  eq_refl, not, eqb, ◌+◌,
}
use nanomdm.Common.Fault.{ok}
use nanomdm.Common.Exec.{pure}
use nanomdm.Bucket.{Bucket, Contents, IsReliable, CommitsBody, got, text_of, put_all}
use nanomdm.Mdm.Enroll.{Enrolled, type_name}
use nanomdm.Mdm.Checkin.{TokenUpdate}
use nanomdm.Common.Decimal.{word, atoi, itoa}
use nanomdm.Kv.Key.{join}
use nanomdm.Kv.Backend.{Backend, update_last_seen}
use nanomdm.Kv.Enrollments.{
  field, bump_tally, tally_bytes, store_push_info, token_update_message, assoc_user_channel, enable,
  store_token_update,
}

tally_bytes-got : (o : Option String) → tally_bytes (got o) ≡ ok (text_of o)
tally_bytes-got none = refl
tally_bytes-got (some v) = refl

module _ {S : Type 0} (b : Bucket S) (c : Contents S) (rel : IsReliable b c) where
  abbrev put_if : Bool → String → String → S → S
  put_if t k v s = if t then c.put k v s else s

  set_if-run :
      (t : Bool) (k v : String) (s : S)
      → (if t then b.set k v else pure tt) s ≡ (ok tt, put_if t k v s)
  set_if-run true k v s = rel.set-eq k v s
  set_if-run false k v s = refl

  set_now_if-run :
      (t : Bool) (k : String) (now : S → String) (s : S)
      → (if t then (λ s. b.set k (now s) s) else pure tt) s ≡ (ok tt, put_if t k (now s) s)
  set_now_if-run true k now s = rel.set-eq k (now s) s
  set_now_if-run false k now s = refl

  abbrev next_tally : String → S → ℕ
  next_tally id s = (atoi (text_of (c.find s (field id "tok_tal"))) + 1) % word

  bump_tally-run :
      (id : String) (s : S)
      → bump_tally id b s
        ≡ (ok (next_tally id s), c.put (field id "tok_tal") (itoa (next_tally id s)) s)
  unfolding bump_tally
  bump_tally-run id s = rw (rel.get-eq, tally_bytes-got, rel.set-eq) refl

  message-run :
      (r : Enrolled) (msg : TokenUpdate) (s : S)
      → token_update_message r msg b s ≡ (
        ok tt,
        c.put
            (field r.id "tok_upd")
            msg.raw
            (put_if (not (r.parent_id == "")) (field r.id "device_ch") r.parent_id s),
      )
  unfolding token_update_message
  message-run r msg s =
      rw (set_if-run (not (r.parent_id == "")) (field r.id "device_ch") r.parent_id s, rel.set-eq)
        refl

module _ {S : Type 0} (kv : Backend S) (b : Bucket S) (c : Contents S) (rel : IsReliable b c) where
  -- the state in which the body of the second transaction ends, but for the last deletion
  abbrev recorded : Enrolled → TokenUpdate → S → S
  recorded r msg s =
      let id = r.id in
      let s1 = c.put (field id "last_seen_at") (kv.now s) s in
      let s2 = c.put (field id "type") (type_name r.type) s1 in
      let s3 =
        put_all c
          ((field id "topic", msg.push.topic)
            ∷ (field id "push_magic", msg.push.push_magic)
            ∷ (field id "token", msg.push.token)
            ∷ [])
          s2 in
      let s4 =
        put_if b c rel (not (msg.unlock_token == "")) (field id "unl_tok") msg.unlock_token s3 in
      let s5 =
        put_if b c rel (not (r.parent_id == "")) (join (r.parent_id ∷ "user_ch" ∷ id ∷ [])) "1"
          s4 in
      let tally = next_tally b c rel id s5 in
      let s6 = c.put (field id "tok_tal") (itoa tally) s5 in
      put_if b c rel (eqb tally 1) (field id "enrolled_at") (kv.now s6) s6

  enable-run :
      (r : Enrolled) (msg : TokenUpdate) (s : S)
      → enable kv r msg b s ≡ (ok tt, c.del (field r.id "disabled") (recorded r msg s))
  unfolding enable update_last_seen store_push_info assoc_user_channel
  enable-run r msg s =
      rw
        (
          rel.set-eq,
          rel.set-eq,
          rel.set_map-eq,
          set_if-run b c rel (not (msg.unlock_token == "")) (field r.id "unl_tok") msg.unlock_token,
          set_if-run b c rel (not (r.parent_id == "")) (join (r.parent_id ∷ "user_ch" ∷ r.id ∷ []))
              "1",
          bump_tally-run b c rel r.id,
          set_now_if-run b c rel _ (field r.id "enrolled_at") kv.now,
          rel.delete-eq,
        )
        refl

module _ {S : Type 0} (kv : Backend S) (u d c : Contents S)
    (users_ok : IsReliable kv.users.bucket u) (users_txn : CommitsBody kv.users)
    (devices_ok : IsReliable kv.devices.bucket d) (devices_txn : CommitsBody kv.devices)
    (rel : IsReliable kv.enrollments.bucket c) (commits : CommitsBody kv.enrollments) where
  messages_run :
      (t : Bool) (r : Enrolled) (msg : TokenUpdate) (s : S)
      → (s' : S) × ((if t then kv.users else kv.devices).txn (token_update_message r msg) s
          ≡ (ok tt, s'))
  messages_run true r msg s =
      let run = message-run kv.users.bucket u users_ok r msg s in (_, users_txn.txn-eq _ s _ run)
  messages_run false r msg s =
      let run = message-run kv.devices.bucket d devices_ok r msg s in
      (_, devices_txn.txn-eq _ s _ run)

  -- On stores with no faults, `StoreTokenUpdate` succeeds for every enrollment, of a device or of a
  -- user, and leaves it enabled: the store has no "disabled" key for its ID.
  store_token_update-enables :
      (r : Enrolled) (msg : TokenUpdate) (s : S)
      → (s' : S) × (store_token_update kv r msg s ≡ (ok tt, s'))
        × (c.find s' (field r.id "disabled") ≡ none)
  unfolding store_token_update
  store_token_update-enables r msg s =
      let b = kv.enrollments.bucket in
      let key = field r.id "disabled" in
      let (s1, e1) = messages_run (not (r.parent_id == "")) r msg s in
      let done = recorded kv b c rel r msg s1 in
      let e2 =
        commits.txn-eq (enable kv r msg) s1 (c.del key done) (enable-run kv b c rel r msg s1) in
      (c.del key done, rw (e1, e2) refl, rel.find-del key done key ∙ rw (eq_refl key) refl)
