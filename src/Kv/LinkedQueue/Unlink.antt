-- ===== src/Kv/LinkedQueue/Unlink.antt =====
-- How taking an item out as `unlink` (queue_ll.go) does changes the list.
use mathlib.Core.Path.{subst}
use nanomdm.Common.{
  String, ◌≡◌, refl, ap, ◌∙◌, sym, ◌≢◌, ◌⊎◌, inl, inr, List, [], ◌∷◌, ◌++◌, eq_iff, eq_refl,
  ne_refl, text-cases, All, All-append_left, All-append_right,
}
use nanomdm.Kv.LinkedQueue.Slots.{first, last, next, prev}
use nanomdm.Kv.LinkedQueue.Shape.{
  Cells, write, head_or, last_or, Fresh, Distinct, Links, Follows, IsQueue, SameLinks, Links-agree,
  Distinct-remove, Distinct-Fresh_empty, Fresh-last_or, last_or-append, Distinct-last,
  Distinct-left, Distinct-right, IsQueue-Follows, Follows-agree,
}
use nanomdm.Kv.LinkedQueue.Relink.{forgotten, unlinked, bridged, bridged-SameLinks, SameLinks-All}

-- the two pointers of an item of the list
pub prev-at :
    (f : Cells) (p id : String) (ys zs : List String)
    → Links f p (ys ++ (id ∷ zs))
    → f (prev id) ≡ last_or p ys
prev-at f p id [] zs h = h.0
prev-at f p id (y ∷ ys) zs h = prev-at f y id ys zs h.2

pub next-at :
    (f : Cells) (p id : String) (ys zs : List String)
    → Links f p (ys ++ (id ∷ zs))
    → f (next id) ≡ head_or "" zs
next-at f p id [] zs h = h.1
next-at f p id (y ∷ ys) zs h = next-at f y id ys zs h.2

Fresh-at : (x id : String) (ys zs : List String) → Fresh x (ys ++ (id ∷ zs)) → x ≢ id
Fresh-at x id ys zs h = (All-append_right _ ys (id ∷ zs) h).0

bridged-Links_at :
    (f : Cells) (p0 p id n : String) (zs : List String)
    → p ≡ p0
    → Distinct (id ∷ n ∷ zs)
    → Fresh p0 (id ∷ n ∷ zs)
    → Links f p0 (id ∷ n ∷ zs)
    → Links (bridged id p n f) p0 (n ∷ zs)
bridged-Links_at f p0 p id n zs e d fp h = (
  rw (ne_refl id n d.1.0, eq_refl n) e,
  rw (ne_refl id n d.1.0, ne_refl p n (λ q. fp.1.0 (sym e ∙ q))) h.2.1,
  Links-agree f (bridged id p n f) n zs
      (SameLinks-All f (bridged id p n f) id n p zs (bridged-SameLinks f id p n) d.1.1 d.2.1
        (rw e fp.1.1))
      h.2.2,
)

bridged-Links :
    (f : Cells) (p0 p id n : String) (ys zs : List String)
    → p ≡ last_or p0 ys
    → Distinct (ys ++ (id ∷ n ∷ zs))
    → Fresh p0 (ys ++ (id ∷ n ∷ zs))
    → Links f p0 (ys ++ (id ∷ n ∷ zs))
    → Links (bridged id p n f) p0 (ys ++ (n ∷ zs))
bridged-Links f p0 p id n [] zs e d fp h = bridged-Links_at f p0 p id n zs e d fp h
bridged-Links f p0 p id n (y ∷ []) zs e d fp h = (
  rw (ne_refl id y (λ q. d.1.0 (sym q)), ne_refl n y (λ q. d.1.1.0 (sym q))) h.0,
  rw (ne_refl id y (λ q. d.1.0 (sym q)), (eq_iff p y).1 e) refl,
  bridged-Links f y p id n [] zs e d.2 d.1 h.2,
)
bridged-Links f p0 p id n (y ∷ y' ∷ ys) zs e d fp h =
    let after : Fresh y (id ∷ n ∷ zs) = All-append_right _ (y' ∷ ys) (id ∷ n ∷ zs) d.1 in
    let before : Fresh y (y' ∷ ys) = All-append_left _ (y' ∷ ys) (id ∷ n ∷ zs) d.1 in
    let other : p ≢ y = λ q. Fresh-last_or y y' ys before (sym q ∙ e) in
    let not_id : id ≢ y = λ q. after.0 (sym q) in
    (
      rw (ne_refl id y not_id, ne_refl n y (λ q. after.1.0 (sym q))) h.0,
      rw (ne_refl id y not_id, ne_refl p y other) h.1,
      bridged-Links f y p id n (y' ∷ ys) zs e d.2 d.1 h.2,
    )

-- Taking out the only item.
unlinked-alone : (f : Cells) (id : String) → IsQueue f (id ∷ []) → IsQueue (unlinked id f) []
unlinked-alone f id h =
    rw ((eq_iff (f (prev id)) "").1 h.links.0, (eq_iff (f (next id)) "").1 h.links.1)
      (record { first_is = refl; last_is = refl; links = tt; distinct = tt })

abbrev beheaded : String → String → Cells → Cells
beheaded id n f = forgotten id (write (prev n) "" (write first n f))

beheaded-SameLinks :
    (f : Cells) (id n p x : String) → id ≢ x → n ≢ x → p ≢ x → SameLinks f (beheaded id n f) x
beheaded-SameLinks f id n p x a b c =
    (rw (ne_refl id x a, ne_refl n x b) refl, rw (ne_refl id x a) refl)

-- Taking out the first of several.
unlinked-first :
    (f : Cells) (id n : String) (zs : List String)
    → IsQueue f (id ∷ n ∷ zs)
    → IsQueue (unlinked id f) (n ∷ zs)
unlinked-first f id n zs h =
    let d = h.distinct in
    rw ((eq_iff (f (prev id)) "").1 h.links.0, h.links.1, ne_refl n "" d.2.0)
      (record {
        first_is = refl;
        last_is = h.last_is;
        links = (
          rw (ne_refl id n d.1.0, eq_refl n) refl,
          rw (ne_refl id n d.1.0) h.links.2.1,
          Links-agree f (beheaded id n f) n zs
              (SameLinks-All f (beheaded id n f) id n id zs (beheaded-SameLinks f id n id) d.1.1
                d.2.1 d.1.1)
              h.links.2.2,
        );
        distinct = d.2;
      })

-- Taking out one in the middle.
unlinked-middle :
    (f : Cells) (y id n : String) (ys zs : List String)
    → IsQueue f (y ∷ (ys ++ (id ∷ n ∷ zs)))
    → IsQueue (unlinked id f) (y ∷ (ys ++ (n ∷ zs)))
unlinked-middle f y id n ys zs h =
    let d = h.distinct in
    let p = prev-at f "" id (y ∷ ys) (n ∷ zs) h.links in
    let q = next-at f "" id (y ∷ ys) (n ∷ zs) h.links in
    let n_ne : n ≢ "" = (Distinct-right (y ∷ ys) (id ∷ n ∷ zs) d).2.0 in
    let p_ne : f (prev id) ≢ "" =
      λ e. Distinct-last y ys (Distinct-left (y ∷ ys) (id ∷ n ∷ zs) d) (sym p ∙ e) in
    rw (ne_refl (f (prev id)) "" p_ne, q, ne_refl n "" n_ne)
      (record {
        first_is = h.first_is;
        last_is = h.last_is ∙ last_or-append y id ys (n ∷ zs) ∙ sym (last_or-append y n ys zs);
        links =
            bridged-Links f "" (f (prev id)) id n (y ∷ ys) zs p d
              (Distinct-Fresh_empty (y ∷ (ys ++ (id ∷ n ∷ zs))) d) h.links;
        distinct = Distinct-remove (y ∷ ys) id (n ∷ zs) d;
      })

-- Taking out an item that is the only one, or not the last one, leaves the others in order.
pub unlinked-IsQueue :
    (f : Cells) (id : String) (ys zs : List String)
    → IsQueue f (ys ++ (id ∷ zs))
    → (zs ≢ []) ⊎ (ys ≡ [])
    → IsQueue (unlinked id f) (ys ++ zs)
unlinked-IsQueue f id [] [] h c = unlinked-alone f id h
unlinked-IsQueue f id [] (n ∷ zs) h c = unlinked-first f id n zs h
unlinked-IsQueue f id (y ∷ ys) (n ∷ zs) h c = unlinked-middle f y id n ys zs h
unlinked-IsQueue f id (y ∷ ys) [] h (inl ne) = absurd (ne refl)
unlinked-IsQueue f id (y ∷ ys) [] h (inr e) = cc

cut-next :
    (f : Cells) (p id y : String)
    → (id ≡ y → f (next id) ≡ "")
    → forgotten id (write last p f) (next y) ≡ f (next y)
cut-next f p id y h = elim (text-cases id y) [
  | inl e ↦ rw ((eq_iff id y).1 e) (sym (h e) ∙ ap (λ x. f (next x)) e)
  | inr n ↦ rw n.1 refl
]

cut-next-All :
    (f : Cells) (p id : String) (xs : List String)
    → f (next id) ≡ ""
    → All (λ y. forgotten id (write last p f) (next y) ≡ f (next y)) xs
cut-next-All f p id [] e = tt
cut-next-All f p id (x ∷ xs) e = (cut-next f p id x (λ _. e), cut-next-All f p id xs e)

-- Taking out the last of several leaves the `next` pointers as they are: the item is still met
-- behind the others.
pub unlinked-last :
    (f : Cells) (y id : String) (ys : List String)
    → IsQueue f (y ∷ (ys ++ (id ∷ [])))
    → Follows (unlinked id f) (unlinked id f first) (y ∷ (ys ++ (id ∷ [])))
      × (unlinked id f last ≡ last_or y ys)
      × (unlinked id f (prev id) ≡ "")
      × (unlinked id f (next id) ≡ "")
unlinked-last f y id ys h =
    let d = h.distinct in
    let p = prev-at f "" id (y ∷ ys) [] h.links in
    let q = next-at f "" id (y ∷ ys) [] h.links in
    let p_ne : f (prev id) ≢ "" =
      λ e. Distinct-last y ys (Distinct-left (y ∷ ys) (id ∷ []) d) (sym p ∙ e) in
    let xs = y ∷ (ys ++ (id ∷ [])) in
    let g : Cells = forgotten id (write last (f (prev id)) f) in
    let same : unlinked id f ≡ g =
      rw (ne_refl (f (prev id)) "" p_ne, (eq_iff (f (next id)) "").1 q) refl in
    subst
      (λ (g : Cells).
        Follows g (g first) xs × (g last ≡ last_or y ys) × (g (prev id) ≡ "") × (g (next id) ≡ ""))
      (sym same)
      (
        Follows-agree f g (f first) xs (cut-next-All f (f (prev id)) id xs q)
            (IsQueue-Follows f xs h),
        p,
        rw (eq_refl id) refl,
        rw (eq_refl id) refl,
      )

-- Taking out an ID with no pointers empties the list, whatever it holds.
pub unlinked_stranger :
    (f : Cells) (id : String)
    → f (prev id) ≡ ""
    → f (next id) ≡ ""
    → (unlinked id f first ≡ "") × (unlinked id f last ≡ "")
unlinked_stranger f id p n =
    rw ((eq_iff (f (prev id)) "").1 p, (eq_iff (f (next id)) "").1 n) (refl, refl)

-- Taking out an item with a `prev` pointer and no `next` pointer leaves the first of the list, and
-- makes the item before it the last.
pub unlinked_tail :
    (f : Cells) (id : String)
    → f (prev id) ≢ ""
    → f (next id) ≡ ""
    → (unlinked id f first ≡ f first) × (unlinked id f last ≡ f (prev id))
unlinked_tail f id p n = rw (ne_refl (f (prev id)) "" p, (eq_iff (f (next id)) "").1 n) (refl, refl)
