-- ===== src/Kv/Enrollments/Laws.antt =====
-- What Disable (mdm.go) does to the enrollments of a device's users.
use Prim.Native.String.{slice, len, count}
use text.Mathlib.TextPositions.{slice-append_left}
use text.Mathlib.TextLemmas.{append_cancel_right, append_inj, append_assoc, length-append}
use nanomdm.Common.{
  String, ◌≡◌, refl, ap, ◌∙◌, sym, ◌≢◌, some, List, [], ◌∷◌, map, arith, ◌^^◌, ne_refl, eq_refl,
  All, ne_of_test,
}
use nanomdm.Common.Fault.{ok}
use nanomdm.Bucket.{Bucket, Contents, IsReliable, CommitsBody}
use nanomdm.Mdm.Enroll.{Enrolled}
use nanomdm.Kv.Backend.{Backend, update_last_seen}
use nanomdm.Kv.Enrollments.{
  field, user_channel_prefix, user_channel_enrollments, each, disable_all, disable,
}

abbrev pub StartsWith : String → String → Type 0
StartsWith p k = (t : String) × (k ≡ p ^^ t)

-- `KeysPrefix` lists keys that start with the prefix, and changes nothing.
abbrev pub ListsKeys : {S : Type 0} → Bucket S → Type 0
ListsKeys {S} b =
    (p : String) (s : S)
    → (keys : List String) × (b.keys_prefix p s ≡ (ok keys, s)) × All (StartsWith p) keys

module _ {S : Type 0} (b : Bucket S) (c : Contents S) (rel : IsReliable b c) where
  -- what a write leaves of the other keys
  find_elsewhere : (k v : String) (s : S) (j : String) → k ≢ j → c.find (c.put k v s) j ≡ c.find s j
  find_elsewhere k v s j h = rel.find-put k v s j ∙ rw (ne_refl k j h) refl

  find_there : (k v : String) (s : S) → c.find (c.put k v s) k ≡ some v
  find_there k v s = rel.find-put k v s k ∙ rw (eq_refl k) refl

  disable_prefixes :
      (p : String) (keys : List String) (s : S)
      → All (StartsWith p) keys
      → (s' : S) × (each
            (λ id. b.set (field id "disabled") "1")
            (map (λ key. slice key 0 (len p)) keys)
            s
          ≡ (ok tt, s'))
        × ((j : String) → field p "disabled" ≢ j → c.find s' j ≡ c.find s j)
  disable_prefixes p [] s h = (s, refl, λ j n. refl)
  disable_prefixes p (k ∷ ks) s h =
      let cut : slice k 0 (len p) ≡ p =
        ap (λ k. slice k 0 (len p)) h.0.1 ∙ slice-append_left p h.0.0 in
      let key = field p "disabled" in
      let (s', run, kept) = disable_prefixes p ks (c.put key "1" s) h.1 in
      (s', rw (cut, rel.set-eq key "1" s) run, λ j n. kept j n ∙ find_elsewhere key "1" s j n)

field-ne : (a b name : String) → a ≢ b → field a name ≢ field b name
field-ne a b name h e = h (append_cancel_right a b ("." ^^ name) e)

seen-ne-disabled : (a b : String) → field a "last_seen_at" ≢ field b "disabled"
seen-ne-disabled a b e =
    let split : (a ^^ ".las") ^^ "t_seen_at" ≡ b ^^ ".disabled" =
      append_assoc a ".las" "t_seen_at" ∙ e in
    let same_length : count (a ^^ ".las") ≡ count b = omega (
      arith,
      ap count split,
      length-append (a ^^ ".las") "t_seen_at",
      length-append b ".disabled",
    ) in
    ne_of_test "t_seen_at" ".disabled" refl (append_inj split same_length).1

prefix-ne : (id : String) → user_channel_prefix id ≢ id
prefix-ne id e =
    absurd
      (omega (arith, ap count e, length-append (id ^^ ".user_ch") ".", length-append id ".user_ch"))

module _ {S : Type 0} (kv : Backend S) (c : Contents S) (rel : IsReliable kv.enrollments.bucket c)
    (commits : CommitsBody kv.enrollments) (lists : ListsKeys kv.enrollments.bucket) where
  -- On stores with no faults, `Disable` of a device's enrollment succeeds and leaves the "disabled"
  -- key of every other enrollment as it was, unless its ID is the device's prefix of user channel
  -- keys itself: the device's user channels stay enabled.
  pub disable-user_channel :
      (r : Enrolled) (user : String) (s : S)
      → r.parent_id ≡ ""
      → user ≢ r.id
      → user ≢ user_channel_prefix r.id
      → (s' : S) × (disable kv r s ≡ (ok tt, s'))
        × (c.find s' (field r.id "disabled") ≡ some "1")
        × (c.find s' (field user "disabled") ≡ c.find s (field user "disabled"))
  unfolding disable disable_all update_last_seen user_channel_enrollments
  disable-user_channel r user s device other outside =
      let b = kv.enrollments.bucket in
      let p = user_channel_prefix r.id in
      let at = field r.id "last_seen_at" in
      let key = field r.id "disabled" in
      let s1 = c.put at (kv.now s) s in
      let s2 = c.put key "1" s1 in
      let (keys, listed, start) = lists p s2 in
      let (s', run, kept) = disable_prefixes b c rel p keys s2 start in
      (
        s',
        commits.txn-eq _ s s'
            (rw (rel.set-eq at (kv.now s) s, rel.set-eq key "1" s1, device, listed) run),
        kept key (field-ne p r.id "disabled" (prefix-ne r.id)) ∙ find_there b c rel key "1" s1,
        kept (field user "disabled") (field-ne p user "disabled" (λ e. outside (sym e)))
            ∙ find_elsewhere b c rel key "1" s1 (field user "disabled")
                (field-ne r.id user "disabled" (λ e. other (sym e)))
            ∙ find_elsewhere b c rel at (kv.now s) s (field user "disabled")
                (seen-ne-disabled r.id user),
      )
