-- ===== src/Kv/LinkedQueue/Runs.antt =====
-- What the operations of queue_ll.go do to the cells of a queue, on a bucket with no faults.
use mathlib.Core.Path.{fun_ext}
use nanomdm.Common.{
  String, ◌≡◌, refl, ap, ◌∙◌, Bool, true, false, Option, none, some, [], ◌∷◌, ◌==◌, if◌then◌else◌,
}
use nanomdm.Common.Fault.{Error, ok, wrap}
use nanomdm.Common.Exec.{Exec, map_error, ◌>>=◌}
use nanomdm.Bucket.{Bucket, Contents, IsReliable, got, text_at, text_of, text_at-put, text_at-del}
use nanomdm.Kv.LinkedQueue.{
  Queue, or_empty, get_first, get_last, get_next, get_prev, set_first, set_last, set_next, set_prev,
  unlink_from, unlink, enqueue,
}
use nanomdm.Kv.LinkedQueue.Slots.{Slot, first, last, next, prev, slot_key, slot_key-same}
use nanomdm.Kv.LinkedQueue.Shape.{Cells, write}
use nanomdm.Kv.LinkedQueue.Relink.{appended, enqueued, mended, forgotten, unlinked}

pub or_empty-got : (text : String) (o : Option String) → or_empty text (got o) ≡ ok (text_of o)
or_empty-got text none = refl
or_empty-got text (some v) = refl

-- the cells of a queue in a state
abbrev pub cells {ℓ} : {S : Type ℓ} → (S → String → String) → Queue → S → Cells
cells read q s a = read s (slot_key q a)

module _ {S : Type 0} (b : Bucket S) (c : Contents S) (rel : IsReliable b c) (q : Queue) where
  pub cells-put :
      (a : Slot) (v : String) (s : S)
      → cells (text_at c) q (c.put (slot_key q a) v s) ≡ write a v (cells (text_at c) q s)
  cells-put a v s =
      fun_ext
        λ j. text_at-put b c rel (slot_key q a) v s (slot_key q j) ∙ rw (slot_key-same q a j) refl

  pub cells-del :
      (a : Slot) (s : S)
      → cells (text_at c) q (c.del (slot_key q a) s) ≡ write a "" (cells (text_at c) q s)
  cells-del a s =
      fun_ext
        λ j. text_at-del b c rel (slot_key q a) s (slot_key q j) ∙ rw (slot_key-same q a j) refl

  pub get_first-run : (s : S) → get_first b q s ≡ (ok (cells (text_at c) q s first), s)
  unfolding get_first
  get_first-run s = rw (rel.get-eq, or_empty-got)

  pub get_last-run : (s : S) → get_last b q s ≡ (ok (cells (text_at c) q s last), s)
  unfolding get_last
  get_last-run s = rw (rel.get-eq, or_empty-got)

  pub get_next-run :
      (id : String) (s : S) → get_next b q id s ≡ (ok (cells (text_at c) q s (next id)), s)
  unfolding get_next
  get_next-run id s = rw (rel.get-eq, or_empty-got)

  pub get_prev-run :
      (id : String) (s : S) → get_prev b q id s ≡ (ok (cells (text_at c) q s (prev id)), s)
  unfolding get_prev
  get_prev-run id s = rw (rel.get-eq, or_empty-got)

  -- `m` succeeds from `s`, and leaves the cells `g`.
  abbrev pub Leaves : Exec S Unit → S → Cells → Type 0
  Leaves m s g = (s' : S) × (m s ≡ (ok tt, s')) × (cells (text_at c) q s' ≡ g)

  pub Leaves-seq :
      (m n : Exec S Unit) (s : S) (g : Cells) (h : Cells → Cells)
      → Leaves m s g
      → ((t : S) → Leaves n t (h (cells (text_at c) q t)))
      → Leaves (m >>= λ _. n) s (h g)
  Leaves-seq m n s g h (t, e, ct) k = let (u, e', cu) = k t in (u, rw e e', cu ∙ ap h ct)

  set_cell :
      (m : Exec S Unit) (a : Slot) (v : String) (s : S)
      → m s ≡ (ok tt, c.put (slot_key q a) v s)
      → Leaves m s (write a v (cells (text_at c) q s))
  set_cell m a v s e = (c.put (slot_key q a) v s, e, cells-put a v s)

  set_first-run :
      (id : String) (s : S) → Leaves (set_first b q id) s (write first id (cells (text_at c) q s))
  unfolding set_first
  set_first-run id s = set_cell (set_first b q id) first id s (rw rel.set-eq)

  set_last-run :
      (id : String) (s : S) → Leaves (set_last b q id) s (write last id (cells (text_at c) q s))
  unfolding set_last
  set_last-run id s = set_cell (set_last b q id) last id s (rw rel.set-eq)

  set_next-run :
      (id v : String) (s : S)
      → Leaves (set_next b q id v) s (write (next id) v (cells (text_at c) q s))
  unfolding set_next
  set_next-run id v s = set_cell (set_next b q id v) (next id) v s (rw rel.set-eq)

  set_prev-run :
      (id v : String) (s : S)
      → Leaves (set_prev b q id v) s (write (prev id) v (cells (text_at c) q s))
  unfolding set_prev
  set_prev-run id v s = set_cell (set_prev b q id v) (prev id) v s (rw rel.set-eq)

  delete-run :
      (a : Slot) (s : S) → Leaves (b.delete (slot_key q a)) s (write a "" (cells (text_at c) q s))
  delete-run a s = (c.del (slot_key q a) s, rel.delete-eq (slot_key q a) s, cells-del a s)

  -- `kv.DeleteSlice` of two keys
  pub delete_two-run :
      (a d : Slot) (s : S)
      → Leaves
          (b.delete_slice (slot_key q a ∷ slot_key q d ∷ []))
          s
          (write d "" (write a "" (cells (text_at c) q s)))
  delete_two-run a d s = (
    c.del (slot_key q d) (c.del (slot_key q a) s),
    rel.delete_slice-eq _ s,
    cells-del d (c.del (slot_key q a) s) ∙ ap (write d "") (cells-del a s),
  )

  delete_two_wrapped :
      (f : Error → Error) (a d : Slot) (s : S)
      → Leaves
          (map_error f (b.delete_slice (slot_key q a ∷ slot_key q d ∷ [])))
          s
          (write d "" (write a "" (cells (text_at c) q s)))
  delete_two_wrapped f a d s = let (t, e, ct) = delete_two-run a d s in (t, rw e refl, ct)

  Leaves-read :
      (m : Exec S String) (f : String → Exec S Unit) (a : String) (s : S) (g : Cells)
      → m s ≡ (ok a, s)
      → Leaves (f a) s g
      → Leaves (m >>= f) s g
  Leaves-read m f a s g e (t, e', ct) = (t, rw e e', ct)

  pub Leaves-if :
      (t : Bool) (m n : Exec S Unit) (s : S) (g h : Cells)
      → Leaves m s g
      → Leaves n s h
      → Leaves (if t then m else n) s (if t then g else h)
  Leaves-if true m n s g h a d = a
  Leaves-if false m n s g h a d = d

  enqueue_behind :
      (l id : String) (s : S)
      → Leaves
          (set_next b q l id >>= λ _. set_prev b q id l >>= λ _. set_last b q id)
          s
          (appended l id (cells (text_at c) q s))
  enqueue_behind l id s =
      Leaves-seq (set_next b q l id) (set_prev b q id l >>= λ _. set_last b q id) s _
        (λ g. write last id (write (prev id) l g)) (set_next-run l id s)
        λ t.
          Leaves-seq (set_prev b q id l) (set_last b q id) t _ (write last id) (set_prev-run id l t)
            (set_last-run id)

  pub enqueue-run :
      (id : String) (s : S) → Leaves (enqueue b q id) s (enqueued id (cells (text_at c) q s))
  unfolding enqueue
  enqueue-run id s =
      let l = cells (text_at c) q s last in
      Leaves-read (get_last b q) _ l s _ (get_last-run s) (
        Leaves-if (l == "") (set_first b q id >>= λ _. set_last b q id) _ s _ _
          (Leaves-seq (set_first b q id) (set_last b q id) s _ (write last id) (set_first-run id s)
            (set_last-run id))
          (enqueue_behind l id s))

  unlink_from-run :
      (p n : String) (s : S) → Leaves (unlink_from b q p n) s (mended p n (cells (text_at c) q s))
  unfolding unlink_from
  unlink_from-run p n s =
      Leaves-if (p == "") _ _ s _ _
        (Leaves-if (n == "") _ _ s _ _
          (delete_two_wrapped (wrap "first first and last") last first s)
          (Leaves-seq (set_first b q n) _ s _ (write (prev n) "") (set_first-run n s)
            (delete-run (prev n))))
        (Leaves-if (n == "") _ _ s _ _ (set_last-run p s) (
          Leaves-seq (set_next b q p n) _ s _ (write (prev n) p) (set_next-run p n s)
            (set_prev-run n p)))

  pub unlink-run :
      (id : String) (s : S) → Leaves (unlink b q id) s (unlinked id (cells (text_at c) q s))
  unfolding unlink
  unlink-run id s =
      let p = cells (text_at c) q s (prev id) in
      let n = cells (text_at c) q s (next id) in
      Leaves-read (get_prev b q id) _ p s _ (get_prev-run id s) (
        Leaves-read (get_next b q id) _ n s _ (get_next-run id s) (
          Leaves-seq (unlink_from b q p n) _ s _ (forgotten id) (unlink_from-run p n s)
            (delete_two_wrapped (wrap "delete prev and next") (prev id) (next id))))
