-- ===== src/Kv/CommandQueue/Apart.antt =====
-- The queues of different enrollments (queue_ll.go, queue.go) share a bucket, where the keys of one begin
-- with its enrollment ID: what enqueueing in one leaves of another.
use mathlib.Core.Path.{fun_ext}
use Prim.Native.String.{count}
use text.Mathlib.TextLemmas.{append_inj}
use nanomdm.Common.{
  String, ◌≡◌, ◌≢◌, refl, ◌∙◌, sym, Bool, true, false, ◌==◌, ne_refl, ◌^^◌, Bool-cases, inl, inr,
}
use nanomdm.Bucket.{Bucket, Contents, IsReliable, text_at, text_at-put}
use nanomdm.Kv.LinkedQueue.{set_first, set_last, set_next, set_prev, enqueue}
use nanomdm.Kv.LinkedQueue.Slots.{
  Slot, first, last, next, prev, status, report, raw, req_type, slot_key, slot_key-same, same_slot,
}
use nanomdm.Kv.CommandQueue.{primary_queue}
use nanomdm.Kv.LinkedQueue.Runs.{cells, get_last-run}

-- No key that begins with the one ID and a dot begins with the other and a dot.
abbrev pub Apart : String → String → Type 0
Apart i j = (x y : String) → i ^^ ("." ^^ x) ≢ j ^^ ("." ^^ y)

pub Apart-sym : (i j : String) → Apart i j → Apart j i
Apart-sym i j apart x y e = apart y x (sym e)

-- Two different IDs of the same length are apart.
pub Apart-of_length : (i j : String) → count i ≡ count j → i ≢ j → Apart i j
Apart-of_length i j len ne x y e = ne (append_inj e len).0

-- the two kinds of keys that begin with a command's UUID, and that all queues share
abbrev is_shared : Slot → Bool
is_shared (raw _) = true
is_shared (req_type _) = true
is_shared _ = false

-- a key of a queue's own, without the enrollment ID and the dot
own_rest : Slot → String
own_rest first = "queuekey" ^^ ("." ^^ ("queue" ^^ ("." ^^ "first")))
own_rest last = "queuekey" ^^ ("." ^^ ("queue" ^^ ("." ^^ "last")))
own_rest (next id) = id ^^ ("." ^^ ("queueitem" ^^ ("." ^^ "next")))
own_rest (prev id) = id ^^ ("." ^^ ("queueitem" ^^ ("." ^^ "prev")))
own_rest (status id) = id ^^ ("." ^^ ("queueitem" ^^ ("." ^^ "status")))
own_rest (report id) = id ^^ ("." ^^ ("queueitem" ^^ ("." ^^ "report")))
own_rest _ = ""

own_key :
    (i : String) (a : Slot)
    → is_shared a ≡ false
    → slot_key (primary_queue i) a ≡ i ^^ ("." ^^ own_rest a)
unfolding own_rest
own_key i first e = refl
own_key i last e = refl
own_key i (next id) e = refl
own_key i (prev id) e = refl
own_key i (status id) e = refl
own_key i (report id) e = refl
own_key i (raw id) e = cc
own_key i (req_type id) e = cc

shared_key :
    (i j : String) (a : Slot)
    → is_shared a ≡ true
    → slot_key (primary_queue i) a ≡ slot_key (primary_queue j) a
shared_key i j (raw id) e = refl
shared_key i j (req_type id) e = refl
shared_key i j first e = cc
shared_key i j last e = cc
shared_key i j (next id) e = cc
shared_key i j (prev id) e = cc
shared_key i j (status id) e = cc
shared_key i j (report id) e = cc

own_not_shared : (a b : Slot) → is_shared a ≡ false → is_shared b ≡ true → same_slot a b ≡ false
own_not_shared (raw x) b e f = cc
own_not_shared (req_type x) b e f = cc
own_not_shared first (raw y) e f = refl
own_not_shared last (raw y) e f = refl
own_not_shared (next x) (raw y) e f = refl
own_not_shared (prev x) (raw y) e f = refl
own_not_shared (status x) (raw y) e f = refl
own_not_shared (report x) (raw y) e f = refl
own_not_shared first (req_type y) e f = refl
own_not_shared last (req_type y) e f = refl
own_not_shared (next x) (req_type y) e f = refl
own_not_shared (prev x) (req_type y) e f = refl
own_not_shared (status x) (req_type y) e f = refl
own_not_shared (report x) (req_type y) e f = refl
own_not_shared a _ e f = cc

-- A key of the one queue's own is none of the other's keys.
slot_key-Apart :
    (i j : String) (a b : Slot)
    → Apart i j
    → is_shared a ≡ false
    → (slot_key (primary_queue i) a == slot_key (primary_queue j) b) ≡ false
slot_key-Apart i j a b apart own = elim (Bool-cases (is_shared b)) [
  | inl t ↦
      rw (sym (shared_key i j b t)) (slot_key-same (primary_queue i) a b ∙ own_not_shared a b own t)
  | inr f ↦ ne_refl _ _ (rw (own_key i a own, own_key j b f) (apart (own_rest a) (own_rest b)))
]

module _ {S : Type 0} (b : Bucket S) (c : Contents S) (rel : IsReliable b c) (i j : String)
    (apart : Apart i j) where
  put-Apart :
      (a : Slot) (v : String) (s : S)
      → is_shared a ≡ false
      → cells (text_at c) (primary_queue j) (c.put (slot_key (primary_queue i) a) v s)
        ≡ cells (text_at c) (primary_queue j) s
  put-Apart a v s own = fun_ext λ d.
      text_at-put b c rel (slot_key (primary_queue i) a) v s (slot_key (primary_queue j) d)
      ∙ rw (slot_key-Apart i j a d apart own) refl

  -- Enqueueing leaves the cells of a queue with an ID that is apart from the queue's own.
  pub enqueue-Apart :
      (id : String) (s : S)
      → cells (text_at c) (primary_queue j) (enqueue b (primary_queue i) id s).1
        ≡ cells (text_at c) (primary_queue j) s
  unfolding enqueue set_first set_last set_next set_prev
  enqueue-Apart id s =
      let l = cells (text_at c) (primary_queue i) s last in
      let read = get_last-run b c rel (primary_queue i) s in
      elim (Bool-cases (l == "")) [
        | inl t ↦
            rw (read, t, rel.set-eq, rel.set-eq)
              (put-Apart last id _ refl ∙ put-Apart first id s refl)
        | inr f ↦
            rw (read, f, rel.set-eq, rel.set-eq, rel.set-eq)
              (put-Apart last id _ refl
                ∙ put-Apart (prev id) l _ refl
                ∙ put-Apart (next l) id s refl)
      ]
