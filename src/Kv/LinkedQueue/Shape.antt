-- ===== src/Kv/LinkedQueue/Shape.antt =====
-- The shape of a linked queue (queue_ll.go), over what its slots hold, and how it changes when the
-- pointers are rewritten the way that `enqueue` and `unlink` do.
use nanomdm.Common.{
  String, ◌≡◌, refl, ap, ◌∙◌, sym, ◌≢◌, List, [], ◌∷◌, ◌++◌, if◌then◌else◌, All, All-append,
  All-append_left, All-append_right,
}
use nanomdm.Kv.LinkedQueue.Slots.{Slot, first, last, next, prev, same_slot}

-- what the slots of a queue hold, "" where a key is missing
abbrev pub Cells : Type 0
Cells = Slot → String

abbrev pub write : Slot → String → Cells → Cells
write a v f j = if same_slot a j then v else f j

abbrev pub head_or : String → List String → String
head_or d [] = d
head_or d (x ∷ xs) = x

abbrev pub last_or : String → List String → String
last_or d [] = d
last_or d (x ∷ xs) = last_or x xs

abbrev pub Fresh : String → List String → Type 0
Fresh x ys = All (λ y. x ≢ y) ys

-- the IDs are not empty and all different
abbrev pub Distinct : List String → Type 0
Distinct [] = Unit
Distinct (x ∷ xs) = (x ≢ "") × Fresh x xs × Distinct xs

-- the pointers of the items `xs`, the first of which comes after `p`
abbrev pub Links : Cells → String → List String → Type 0
Links f p [] = Unit
Links f p (x ∷ xs) = (f (prev x) ≡ p) × (f (next x) ≡ head_or "" xs) × Links f x xs

-- the items that are met from `x` along the `next` pointers, until ""
abbrev pub Follows : Cells → String → List String → Type 0
Follows f x [] = x ≡ ""
Follows f x (y ∷ ys) = (x ≡ y) × (y ≢ "") × Follows f (f (next y)) ys

-- The cells hold the well-formed list `xs`.
pub record IsQueue (f : Cells) (xs : List String) : Type 0 where
  pub first_is : f first ≡ head_or "" xs
  pub last_is : f last ≡ last_or "" xs
  pub links : Links f "" xs
  pub distinct : Distinct xs

pub Links-Follows :
    (f : Cells) (p x : String) (xs : List String)
    → x ≡ head_or "" xs
    → Links f p xs
    → Distinct xs
    → Follows f x xs
Links-Follows f p x [] e l d = e
Links-Follows f p x (y ∷ ys) e l d = (e, d.0, Links-Follows f y (f (next y)) ys l.1 l.2 d.2)

pub IsQueue-Follows : (f : Cells) (xs : List String) → IsQueue f xs → Follows f (f first) xs
IsQueue-Follows f xs h = Links-Follows f "" (f first) xs h.first_is h.links h.distinct

-- the cells that the pointers of `x` stand in are the same in `f` and `g`
abbrev pub SameLinks : Cells → Cells → String → Type 0
SameLinks f g x = (g (prev x) ≡ f (prev x)) × (g (next x) ≡ f (next x))

pub Links-agree :
    (f g : Cells) (p : String) (xs : List String)
    → All (SameLinks f g) xs
    → Links f p xs
    → Links g p xs
Links-agree f g p [] a l = tt
Links-agree f g p (x ∷ xs) a l = (a.0.0 ∙ l.0, a.0.1 ∙ l.1, Links-agree f g x xs a.1 l.2)

pub Distinct-remove :
    (ys : List String) (x : String) (zs : List String)
    → Distinct (ys ++ (x ∷ zs))
    → Distinct (ys ++ zs)
Distinct-remove [] x zs d = d.2
Distinct-remove (y ∷ ys) x zs d = (
  d.0,
  All-append _ ys zs (All-append_left _ ys (x ∷ zs) d.1) (All-append_right _ ys (x ∷ zs) d.1).1,
  Distinct-remove ys x zs d.2,
)

pub Distinct-snoc :
    (xs : List String) (x : String) → Distinct xs → x ≢ "" → Fresh x xs → Distinct (xs ++ x ∷ [])
Distinct-snoc [] x d n h = (n, tt, tt)
Distinct-snoc (y ∷ ys) x d n h =
    (d.0, All-append _ ys (x ∷ []) d.1 ((λ e. h.0 (sym e)), tt), Distinct-snoc ys x d.2 n h.1)

pub Distinct-Fresh_empty : (xs : List String) → Distinct xs → Fresh "" xs
Distinct-Fresh_empty [] d = tt
Distinct-Fresh_empty (x ∷ xs) d = ((λ e. d.0 (sym e)), Distinct-Fresh_empty xs d.2)

-- the last of a list that is not empty is an item of it
pub Fresh-last_or : (x y : String) (ys : List String) → Fresh x (y ∷ ys) → x ≢ last_or y ys
Fresh-last_or x y [] h = h.0
Fresh-last_or x y (z ∷ zs) h = Fresh-last_or x z zs h.1

pub last_or-append :
    (d x : String) (xs ys : List String) → last_or d (xs ++ (x ∷ ys)) ≡ last_or x ys
last_or-append d x [] ys = refl
last_or-append d x (z ∷ zs) ys = last_or-append z x zs ys

pub Distinct-last : (x : String) (xs : List String) → Distinct (x ∷ xs) → last_or x xs ≢ ""
Distinct-last x [] d = d.0
Distinct-last x (y ∷ ys) d = Distinct-last y ys d.2

pub Distinct-left : (xs ys : List String) → Distinct (xs ++ ys) → Distinct xs
Distinct-left [] ys d = tt
Distinct-left (x ∷ xs) ys d = (d.0, All-append_left _ xs ys d.1, Distinct-left xs ys d.2)

pub Distinct-right : (xs ys : List String) → Distinct (xs ++ ys) → Distinct ys
Distinct-right [] ys d = d
Distinct-right (x ∷ xs) ys d = Distinct-right xs ys d.2

-- Cells that follow the pointers of `f` but at the last item, whose `next` pointer is not read.
pub Follows-agree :
    (f g : Cells) (x : String) (xs : List String)
    → All (λ y. g (next y) ≡ f (next y)) xs
    → Follows f x xs
    → Follows g x xs
Follows-agree f g x [] a h = h
Follows-agree f g x (y ∷ ys) a h = (h.0, h.1, Follows-agree f g (g (next y)) ys a.1 (rw a.0 h.2))

-- a cell of cells that are equal
pub at_cell : (g h : Cells) (a : Slot) {v : String} → g ≡ h → h a ≡ v → g a ≡ v
at_cell g h a e p = ap (λ (k : Cells). k a) e ∙ p

-- the item at the end of a list of different items is none of those before it
pub Fresh-at_end : (xs : List String) (x : String) → Distinct (xs ++ (x ∷ [])) → Fresh x xs
Fresh-at_end [] x d = tt
Fresh-at_end (y ∷ ys) x d =
    ((λ e. (All-append_right _ ys (x ∷ []) d.1).0 (sym e)), Fresh-at_end ys x d.2)
