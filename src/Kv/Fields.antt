-- ===== src/Kv/Fields.antt =====
-- Three fields of one enrollment or topic (storage/kv/kv.go, join), written and read back together.
use nanomdm.Common.{
  String, ◌≡◌, refl, ap, ◌∙◌, sym, ◌≢◌, false, some, [], ◌∷◌, ◌==◌, ◌^^◌, ne_refl, eq_refl,
  lookup_text,
}
use text.Mathlib.TextLemmas.{append_cancel_left}
use nanomdm.Common.Fault.{ok}
use nanomdm.Bucket.{Bucket, Contents, IsReliable, is_some}
use nanomdm.Kv.Enrollments.{field}

pub field_test : (id a b : String) → a ≢ b → (field id a == field id b) ≡ false
field_test id a b h =
    ne_refl (field id a) (field id b)
      (λ e. h (append_cancel_left "." a b (append_cancel_left id ("." ^^ a) ("." ^^ b) e)))

module _ {S : Type 0} (b : Bucket S) (c : Contents S) (rel : IsReliable b c) where
  -- what a write leaves at a key, and at another
  at_key : (k v : String) (s : S) → c.find (c.put k v s) k ≡ some v
  at_key k v s = rel.find-put k v s k ∙ rw (eq_refl k) refl

  beyond :
      (id x y v : String) (s : S)
      → x ≢ y
      → c.find (c.put (field id x) v s) (field id y) ≡ c.find s (field id y)
  beyond id x y v s h = rel.find-put (field id x) v s (field id y) ∙ rw (field_test id x y h) refl

  pub set_map-get_map :
      (id x y z u v w : String) (s : S)
      → x ≢ y
      → x ≢ z
      → y ≢ z
      → (s' : S) × (b.set_map ((field id x, u) ∷ (field id y, v) ∷ (field id z, w) ∷ []) s
          ≡ (ok tt, s'))
        × (b.get_map (field id x ∷ field id y ∷ field id z ∷ []) s'
            ≡ (ok ((field id x, u) ∷ (field id y, v) ∷ (field id z, w) ∷ []), s'))
        × (c.find s' (field id z) ≡ some w)
  set_map-get_map id x y z u v w s xy xz yz =
      let s1 = c.put (field id x) u s in
      let s2 = c.put (field id y) v s1 in
      let s3 = c.put (field id z) w s2 in
      let last : c.find s3 (field id z) ≡ some w = at_key (field id z) w s2 in
      let middle : c.find s3 (field id y) ≡ some v =
        beyond id z y w s2 (λ e. yz (sym e)) ∙ at_key (field id y) v s1 in
      let first : c.find s3 (field id x) ≡ some u =
        beyond id z x w s2 (λ e. xz (sym e))
        ∙ beyond id y x v s1 (λ e. xy (sym e))
        ∙ at_key (field id x) u s in
      (
        s3,
        rel.set_map-eq _ s,
        rel.get_map-eq (field id x ∷ field id y ∷ field id z ∷ []) s3
              (ap is_some first, (ap is_some middle, (ap is_some last, tt)))
            ∙ rw (first, middle, last) refl,
        last,
      )

pub lookup_three :
    (id x y z u v w : String)
    → x ≢ y
    → x ≢ z
    → y ≢ z
    → (lookup_text (field id x) ((field id x, u) ∷ (field id y, v) ∷ (field id z, w) ∷ []) ≡ u)
      × (lookup_text (field id y) ((field id x, u) ∷ (field id y, v) ∷ (field id z, w) ∷ []) ≡ v)
      × (lookup_text (field id z) ((field id x, u) ∷ (field id y, v) ∷ (field id z, w) ∷ []) ≡ w)
unfolding lookup_text
lookup_three id x y z u v w xy xz yz = (
  rw (eq_refl (field id x)) refl,
  rw (field_test id x y xy, eq_refl (field id y)) refl,
  rw (field_test id x z xz, field_test id y z yz, eq_refl (field id z)) refl,
)
