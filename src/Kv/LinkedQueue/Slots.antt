-- ===== src/Kv/LinkedQueue/Slots.antt =====
-- The keys of one queue (queue_ll.go, queue.go) never collide: they differ in their last three
-- characters, or in the ID before them.
use Prim.Native.String.{count}
use text.Mathlib.TextLemmas.{
  append_assoc, append_inj, append_cancel_left, append_cancel_right, length-append,
}
use nanomdm.Common.{
  ℕ, String, ◌≡◌, refl, ap, ◌∙◌, sym, Bool, true, false, [], ◌∷◌, arith, ◌==◌, eq_iff, eq_refl,
  ◌^^◌, if◌then◌else◌, Bool-cases, inl, inr,
}
use nanomdm.Kv.Key.{join}
use nanomdm.Kv.LinkedQueue.{Queue, queue_key_name, item_key_name}

-- what a key of a queue's bucket stands for
pub data Slot : Type 0 where
  first last : Slot
  next prev status report : String → Slot
  raw req_type : String → Slot

abbrev pub slot_key : Queue → Slot → String
slot_key q first = queue_key_name q "first"
slot_key q last = queue_key_name q "last"
slot_key q (next id) = item_key_name q id "next"
slot_key q (prev id) = item_key_name q id "prev"
slot_key q (status id) = item_key_name q id "status"
slot_key q (report id) = item_key_name q id "report"
slot_key q (raw id) = join (id ∷ "raw" ∷ [])
slot_key q (req_type id) = join (id ∷ "req_type" ∷ [])

abbrev pub same_slot : Slot → Slot → Bool
same_slot first first = true
same_slot last last = true
same_slot (next a) (next b) = a == b
same_slot (prev a) (prev b) = a == b
same_slot (status a) (status b) = a == b
same_slot (report a) (report b) = a == b
same_slot (raw a) (raw b) = a == b
same_slot (req_type a) (req_type b) = a == b
same_slot _ _ = false

ending : Slot → String
ending first = "rst"
ending last = "ast"
ending (next _) = "ext"
ending (prev _) = "rev"
ending (status _) = "tus"
ending (report _) = "ort"
ending (raw _) = "raw"
ending (req_type _) = "ype"

item_stem : Queue → String → String → String
item_stem q id rest = q.queue_key ^^ ("." ^^ (id ^^ rest))

queue_stem : Queue → String → String
queue_stem q rest = q.queue_key ^^ ("." ^^ ("queuekey" ^^ ("." ^^ (q.name ^^ rest))))

stem : Queue → Slot → String
stem q first = queue_stem q ".fi"
stem q last = queue_stem q ".l"
stem q (next id) = item_stem q id ".queueitem.n"
stem q (prev id) = item_stem q id ".queueitem.p"
stem q (status id) = item_stem q id ".queueitem.sta"
stem q (report id) = item_stem q id ".queueitem.rep"
stem q (raw id) = id ^^ "."
stem q (req_type id) = id ^^ ".req_t"

slot_key-eq : (q : Queue) (a : Slot) → slot_key q a ≡ stem q a ^^ ending a
unfolding stem ending item_stem queue_stem
slot_key-eq q first = simp append_assoc
slot_key-eq q last = simp append_assoc
slot_key-eq q (next id) = simp append_assoc
slot_key-eq q (prev id) = simp append_assoc
slot_key-eq q (status id) = simp append_assoc
slot_key-eq q (report id) = simp append_assoc
slot_key-eq q (raw id) = simp append_assoc
slot_key-eq q (req_type id) = simp append_assoc

-- the endings tell the kinds of slots apart
kind_of_ending : String → ℕ
kind_of_ending e =
    if e == "rst"
    then 0
    else if e == "ast"
    then 1
    else if e == "ext"
    then 2
    else if e == "rev"
    then 3
    else if e == "tus"
    then 4
    else if e == "ort"
    then 5
    else if e == "raw"
    then 6
    else 7

kind : Slot → ℕ
unfolding kind_of_ending ending
kind a = kind_of_ending (ending a)

count-ending : (a : Slot) → count (ending a) ≡ 3
unfolding ending
count-ending first = refl
count-ending last = refl
count-ending (next _) = refl
count-ending (prev _) = refl
count-ending (status _) = refl
count-ending (report _) = refl
count-ending (raw _) = refl
count-ending (req_type _) = refl

-- two keys that are equal have equal endings and equal stems
slot_key-parts :
    (q : Queue) (a b : Slot)
    → slot_key q a ≡ slot_key q b
    → (stem q a ≡ stem q b) × (ending a ≡ ending b)
slot_key-parts q a b e =
    let p : stem q a ^^ ending a ≡ stem q b ^^ ending b =
      sym (slot_key-eq q a) ∙ e ∙ slot_key-eq q b in
    append_inj p (
      omega (
        arith,
        ap count p,
        length-append (stem q a) (ending a),
        length-append (stem q b) (ending b),
        count-ending a,
        count-ending b,
      ))

item_stem-injective :
    (q : Queue) (i j rest : String) → item_stem q i rest ≡ item_stem q j rest → i ≡ j
unfolding item_stem
item_stem-injective q i j rest e =
    append_cancel_right i j rest (append_cancel_left "." _ _ (append_cancel_left q.queue_key _ _ e))

same_slot_of_parts :
    (q : Queue) (a b : Slot) → kind a ≡ kind b → stem q a ≡ stem q b → same_slot a b ≡ true
unfolding kind stem
same_slot_of_parts q first first k e = refl
same_slot_of_parts q last last k e = refl
same_slot_of_parts q (next i) (next j) k e = (eq_iff i j).1 (item_stem-injective q i j _ e)
same_slot_of_parts q (prev i) (prev j) k e = (eq_iff i j).1 (item_stem-injective q i j _ e)
same_slot_of_parts q (status i) (status j) k e = (eq_iff i j).1 (item_stem-injective q i j _ e)
same_slot_of_parts q (report i) (report j) k e = (eq_iff i j).1 (item_stem-injective q i j _ e)
same_slot_of_parts q (raw i) (raw j) k e = (eq_iff i j).1 (append_cancel_right i j _ e)
same_slot_of_parts q (req_type i) (req_type j) k e = (eq_iff i j).1 (append_cancel_right i j _ e)
same_slot_of_parts q _ _ k e = absurd (omega arith)

slot_key-injective : (q : Queue) (a b : Slot) → slot_key q a ≡ slot_key q b → same_slot a b ≡ true
unfolding kind
slot_key-injective q a b e =
    let (s, t) = slot_key-parts q a b e in same_slot_of_parts q a b (ap kind_of_ending t) s

slot_key_of_same : (q : Queue) (a b : Slot) → same_slot a b ≡ true → slot_key q a ≡ slot_key q b
slot_key_of_same q first first e = refl
slot_key_of_same q last last e = refl
slot_key_of_same q (next i) (next j) e = ap (λ x. slot_key q (next x)) ((eq_iff i j).0 e)
slot_key_of_same q (prev i) (prev j) e = ap (λ x. slot_key q (prev x)) ((eq_iff i j).0 e)
slot_key_of_same q (status i) (status j) e = ap (λ x. slot_key q (status x)) ((eq_iff i j).0 e)
slot_key_of_same q (report i) (report j) e = ap (λ x. slot_key q (report x)) ((eq_iff i j).0 e)
slot_key_of_same q (raw i) (raw j) e = ap (λ x. slot_key q (raw x)) ((eq_iff i j).0 e)
slot_key_of_same q (req_type i) (req_type j) e =
    ap (λ x. slot_key q (req_type x)) ((eq_iff i j).0 e)
slot_key_of_same q _ _ e = cc

-- Two keys of a queue's bucket are equal exactly when they stand for the same slot, whatever the
-- enrollment ID and the command UUIDs are.
pub slot_key-same : (q : Queue) (a b : Slot) → (slot_key q a == slot_key q b) ≡ same_slot a b
slot_key-same q a b = elim (Bool-cases (same_slot a b)) [
  | inl t ↦ rw (t, slot_key_of_same q a b t) (eq_refl (slot_key q b))
  | inr f ↦ elim (Bool-cases (slot_key q a == slot_key q b)) [
    | inl e ↦ cc (slot_key-injective q a b ((eq_iff _ _).0 e))
    | inr n ↦ n ∙ sym f
  ]
]
