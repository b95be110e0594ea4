-- ===== src/Kv/LinkedQueue/Relink.antt =====
-- How rewriting the pointers as `enqueue` and `unlink` (queue_ll.go) do changes the list they hold.
use nanomdm.Common.{
  String, ◌≡◌, refl, ◌∙◌, sym, ◌≢◌, List, [], ◌∷◌, ◌++◌, ◌==◌, eq_iff, eq_refl, ne_refl,
  if◌then◌else◌, All,
}
use nanomdm.Kv.LinkedQueue.Slots.{first, last, next, prev}
use nanomdm.Kv.LinkedQueue.Shape.{
  Cells, write, last_or, Fresh, Distinct, Links, IsQueue, SameLinks, Distinct-snoc,
  Distinct-Fresh_empty, Fresh-last_or, last_or-append, Distinct-last,
}

-- `enqueue` on an empty list, and behind the item `l`
abbrev pub started : String → Cells → Cells
started id f = write last id (write first id f)

abbrev pub appended : String → String → Cells → Cells
appended l id f = write last id (write (prev id) l (write (next l) id f))

abbrev pub enqueued : String → Cells → Cells
enqueued id f = if f last == "" then started id f else appended (f last) id f

-- the neighbours of the item that `unlink` takes out, by the item's two pointers
abbrev pub mended : String → String → Cells → Cells
mended p n f =
    if p == ""
    then if n == "" then write first "" (write last "" f) else write (prev n) "" (write first n f)
    else if n == ""
    then write last p f
    else write (prev n) p (write (next p) n f)

abbrev pub forgotten : String → Cells → Cells
forgotten id f = write (next id) "" (write (prev id) "" f)

abbrev pub unlinked : String → Cells → Cells
unlinked id f = forgotten id (mended (f (prev id)) (f (next id)) f)

-- the `next` pointer of `x`, the last written item or before it
next-appended_last : (f : Cells) (l id x : String) → l ≡ x → appended l id f (next x) ≡ id
next-appended_last f l id x e = rw ((eq_iff l x).1 e) refl

next-appended_other : (f : Cells) (l id x : String) → x ≢ l → appended l id f (next x) ≡ f (next x)
next-appended_other f l id x h = rw (ne_refl l x (λ e. h (sym e))) refl

appended-Links :
    (f : Cells) (p l id : String) (xs : List String)
    → l ≡ last_or p xs
    → Fresh id xs
    → Distinct xs
    → Fresh p xs
    → id ≢ l
    → f (next id) ≡ ""
    → Links f p xs
    → Links (appended l id f) p (xs ++ id ∷ [])
appended-Links f p l id [] e fr d fp ne n h =
    (rw (eq_refl id) e, next-appended_other f l id id ne ∙ n, tt)
appended-Links f p l id (x ∷ []) e fr d fp ne n h = (
  rw (ne_refl id x fr.0) h.0,
  next-appended_last f l id x e,
  appended-Links f x l id [] e tt tt tt ne n tt,
)
appended-Links f p l id (x ∷ y ∷ ys) e fr d fp ne n h = (
  rw (ne_refl id x fr.0) h.0,
  next-appended_other f l id x (λ q. Fresh-last_or x y ys d.1 (q ∙ e)) ∙ h.1,
  appended-Links f x l id (y ∷ ys) e fr.1 d.2 d.1 ne n h.2,
)

-- Enqueueing an ID whose pointers are empty puts it at the end of the list.
pub enqueued-IsQueue :
    (f : Cells) (id : String) (xs : List String)
    → IsQueue f xs
    → id ≢ ""
    → Fresh id xs
    → f (next id) ≡ ""
    → f (prev id) ≡ ""
    → IsQueue (enqueued id f) (xs ++ id ∷ [])
enqueued-IsQueue f id [] h ne fr n p =
    rw ((eq_iff (f last) "").1 h.last_is)
      (record { first_is = refl; last_is = refl; links = (p, n, tt); distinct = (ne, tt, tt) })
enqueued-IsQueue f id (x ∷ xs) h ne fr n p =
    rw (ne_refl (f last) "" (λ e. Distinct-last x xs h.distinct (sym h.last_is ∙ e))) (record {
      first_is = h.first_is;
      last_is = sym (last_or-append "" id (x ∷ xs) []);
      links =
          appended-Links f "" (f last) id (x ∷ xs) h.last_is fr h.distinct
            (Distinct-Fresh_empty (x ∷ xs) h.distinct)
            (λ e. Fresh-last_or id x xs fr (e ∙ h.last_is)) n h.links;
      distinct = Distinct-snoc (x ∷ xs) id h.distinct ne fr;
    })

pub SameLinks-All :
    (f g : Cells) (id n p : String) (xs : List String)
    → ((x : String) → id ≢ x → n ≢ x → p ≢ x → SameLinks f g x)
    → Fresh id xs
    → Fresh n xs
    → Fresh p xs
    → All (SameLinks f g) xs
SameLinks-All f g id n p [] same a b c = tt
SameLinks-All f g id n p (x ∷ xs) same a b c =
    (same x a.0 b.0 c.0, SameLinks-All f g id n p xs same a.1 b.1 c.1)

abbrev pub bridged : String → String → String → Cells → Cells
bridged id p n f = forgotten id (write (prev n) p (write (next p) n f))

pub bridged-SameLinks :
    (f : Cells) (id p n x : String) → id ≢ x → n ≢ x → p ≢ x → SameLinks f (bridged id p n f) x
bridged-SameLinks f id p n x a b c =
    (rw (ne_refl id x a, ne_refl n x b), rw (ne_refl id x a, ne_refl p x c))
