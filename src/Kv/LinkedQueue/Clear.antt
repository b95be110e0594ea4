-- ===== src/Kv/LinkedQueue/Clear.antt =====
-- What `clear` of queue_ll.go leaves behind, and that its loop ends.
use nanomdm.Common.{
  ℕ, zero, suc, ◌<◌, String, ◌≡◌, refl, ap, ◌∙◌, ◌≢◌, List, [], ◌∷◌, arith, ◌==◌, eq_iff, ne_refl,
  if◌then◌else◌, Bool-cases, inl, inr, length, All-map,
}
use nanomdm.Common.Fault.{ok}
use nanomdm.Bucket.{Bucket, Contents, IsReliable, text_at}
use nanomdm.Kv.LinkedQueue.{Queue, drop_pointers, clear_from, clear}
use nanomdm.Kv.LinkedQueue.Slots.{first, last, next, prev}
use nanomdm.Kv.LinkedQueue.Shape.{
  Cells, write, last_or, Fresh, Distinct, Follows, IsQueue, IsQueue-Follows, Fresh-last_or,
  Follows-agree, Distinct-Fresh_empty,
}
use nanomdm.Kv.LinkedQueue.Runs.{cells, Leaves, get_first-run, get_next-run, delete_two-run}

-- `drop_pointers`
abbrev pub dropped : String → Cells → Cells
dropped l f = if l == "" then f else write (prev l) "" (write (next l) "" f)

-- The cells after the loop of `clear` has met the items `xs`, the one before them being `l`.
abbrev pub cleared_from : String → List String → Cells → Cells
cleared_from l [] f = write last "" (write first "" f)
cleared_from l (x ∷ xs) f = cleared_from x xs (dropped l f)

dropped-next : (f : Cells) (l y : String) → l ≢ y → dropped l f (next y) ≡ f (next y)
dropped-next f l y h = elim (Bool-cases (l == "")) [
  | inl e ↦ rw e refl
  | inr n ↦ rw (n, ne_refl l y h) refl
]

-- dropping the pointers of one item leaves the way along the others
dropped-Follows :
    (f g : Cells) (l y : String) (ys : List String)
    → g ≡ dropped l f
    → Fresh l (y ∷ ys)
    → Follows f (f (next y)) ys
    → Follows g (g (next y)) ys
dropped-Follows f g l y ys e fr h =
    let same : (z : String) → l ≢ z → g (next z) ≡ f (next z) =
      λ z n. ap (λ (k : Cells). k (next z)) e ∙ dropped-next f l z n in
    rw (same y fr.0) (Follows-agree f g (f (next y)) ys (All-map _ same ys fr.1) h)

module _ {S : Type 0} (b : Bucket S) (c : Contents S) (rel : IsReliable b c) (q : Queue) where
  drop_pointers-run :
      (l : String) (s : S)
      → Leaves b c rel q (drop_pointers b q l) s (dropped l (cells (text_at c) q s))
  unfolding drop_pointers
  drop_pointers-run l s = elim (Bool-cases (l == "")) [
    | inl e ↦ rw e (s, refl, refl)
    | inr n ↦ rw n (delete_two-run b c rel q (next l) (prev l) s)
  ]

  clear_from-run :
      (fuel : ℕ) (l x : String) (xs : List String) (s : S)
      → length xs < fuel
      → Follows (cells (text_at c) q s) x xs
      → Distinct xs
      → Fresh l xs
      → Leaves b c rel q
          (clear_from b q fuel l (ok x))
          s
          (cleared_from l xs (cells (text_at c) q s))
  unfolding clear_from
  clear_from-run zero l x xs s lt h d fr = absurd (omega arith)
  clear_from-run (suc fuel) l x [] s lt h d fr =
      rw ((eq_iff x "").1 h) (delete_two-run b c rel q first last s)
  clear_from-run (suc fuel) l x (y ∷ ys) s lt h d fr =
      let (t, e, ct) = drop_pointers-run l s in
      let onward =
        dropped-Follows (cells (text_at c) q s) (cells (text_at c) q t) l y ys ct fr h.2 in
      let (s', run, after) =
        clear_from-run fuel y (cells (text_at c) q t (next y)) ys t (omega arith) onward d.2 d.1 in
      rw (h.0, ne_refl y "" h.1, e, get_next-run b c rel q)
        (s', run, after ∙ ap (cleared_from y ys) ct)

  -- `clear` of a well-formed list ends, without an error, and leaves these cells.
  pub clear-run :
      (fuel : ℕ) (xs : List String) (s : S)
      → length xs < fuel
      → IsQueue (cells (text_at c) q s) xs
      → Leaves b c rel q (clear b q fuel) s (cleared_from "" xs (cells (text_at c) q s))
  unfolding clear
  clear-run fuel xs s lt h = rw (get_first-run b c rel q) (
      clear_from-run fuel "" _ xs s lt (IsQueue-Follows _ xs h) h.distinct
        (Distinct-Fresh_empty xs h.distinct))

cleared_from-ends :
    (l : String) (xs : List String) (f : Cells)
    → (cleared_from l xs f first ≡ "") × (cleared_from l xs f last ≡ "")
cleared_from-ends l [] f = (refl, refl)
cleared_from-ends l (x ∷ xs) f = cleared_from-ends x xs (dropped l f)

dropped-prev : (f : Cells) (l y : String) → l ≢ y → dropped l f (prev y) ≡ f (prev y)
dropped-prev f l y h = elim (Bool-cases (l == "")) [
  | inl e ↦ rw e refl
  | inr n ↦ rw (n, ne_refl l y h) refl
]

-- The `prev` pointer of the last item stays behind.
pub cleared_from-prev_last :
    (l y : String) (xs : List String) (f : Cells)
    → Fresh l (y ∷ xs)
    → Distinct (y ∷ xs)
    → cleared_from l (y ∷ xs) f (prev (last_or y xs)) ≡ f (prev (last_or y xs))
cleared_from-prev_last l y [] f fr d = dropped-prev f l y fr.0
cleared_from-prev_last l y (x ∷ xs) f fr d =
    cleared_from-prev_last y x xs (dropped l f) d.1 d.2
    ∙ dropped-prev f l (last_or x xs) (Fresh-last_or l y (x ∷ xs) fr)

-- What `clear` leaves is the empty list.
pub cleared-IsQueue : (xs : List String) (f : Cells) → IsQueue (cleared_from "" xs f) []
cleared-IsQueue xs f =
    let (a, d) = cleared_from-ends "" xs f in
    record { first_is = a; last_is = d; links = tt; distinct = tt }

dropped-next_empty : (f : Cells) (l y : String) → f (next y) ≡ "" → dropped l f (next y) ≡ ""
dropped-next_empty f l y h = ground arith

-- A `next` pointer that is empty stays so.
pub cleared_from-next_empty :
    (l y : String) (xs : List String) (f : Cells)
    → f (next y) ≡ ""
    → cleared_from l xs f (next y) ≡ ""
cleared_from-next_empty l y [] f h = h
cleared_from-next_empty l y (x ∷ xs) f h =
    cleared_from-next_empty x y xs (dropped l f) (dropped-next_empty f l y h)
