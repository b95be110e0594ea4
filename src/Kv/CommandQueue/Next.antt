-- ===== src/Kv/CommandQueue/Next.antt =====
-- RetrieveNextCommand of storage/kv/queue.go over a well-formed list.
use mathlib.Core.Option
use mathlib.Core.Option.{some-injective}
use nanomdm.Common.{
  ℕ, zero, suc, ◌<◌, String, ◌≡◌, refl, ap, ◌∙◌, ◌≢◌, Bool, true, false, ◌&&◌, Option, none, some,
  List, [], ◌∷◌, ◌++◌, arith, ◌==◌, eq_iff, eq_refl, ne_refl, if◌then◌else◌, Bool-cases, text-cases,
  inl, inr, length, All, lookup_text,
}
use nanomdm.Common.Fault.{ok}
use nanomdm.Bucket.{Bucket, Contents, IsReliable, is_some, text_at, text_of}
use nanomdm.Mdm.Enroll.{Enrolled}
use nanomdm.Mdm.Command.{Command}
use nanomdm.Kv.Backend.{Backend}
use nanomdm.Kv.LinkedQueue.{Queue}
use nanomdm.Kv.LinkedQueue.Slots.{first, status, raw, req_type, slot_key, slot_key-same}
use nanomdm.Kv.LinkedQueue.Shape.{Cells, Follows, IsQueue, IsQueue-Follows}
use nanomdm.Kv.LinkedQueue.Runs.{cells, get_first-run, get_next-run, or_empty-got}
use nanomdm.Kv.CommandQueue.{primary_queue, fetch_command, next_command_from, retrieve_next_command}

-- The first item that is not to be skipped: the specification of what is delivered next.
abbrev pub pending : Cells → Bool → List String → Option String
pending f skip [] = none
pending f skip (x ∷ xs) = if f (status x) == "NotNow" && skip then pending f skip xs else some x

abbrev pub command_at : Cells → String → Command
command_at f uuid = record {
  command_uuid = uuid;
  request_type = f (req_type uuid);
  raw = f (raw uuid);
}

-- The command's own two keys are there, and hold what `DecodeCommand` demands of a command.
abbrev pub IsStored : Cells → String → Type 0
IsStored f id = (f (raw id) ≢ "") × (f (req_type id) ≢ "")

is_some_of_text : (o : Option String) → text_of o ≢ "" → is_some o ≡ true
is_some_of_text none h = absurd (h refl)
is_some_of_text (some v) h = refl

module _ {S : Type 0} (b : Bucket S) (c : Contents S) (rel : IsReliable b c) (q : Queue) where
  fetch_command-run :
      (s : S) (id : String)
      → IsStored (cells (text_at c) q s) id
      → fetch_command b id s ≡ (ok (some (command_at (cells (text_at c) q s) id)), s)
  unfolding fetch_command lookup_text
  fetch_command-run s id st =
      let differ : (slot_key q (raw id) == slot_key q (req_type id)) ≡ false =
        slot_key-same q (raw id) (req_type id) in
      rw
        (
          rel.get_map-eq (slot_key q (raw id) ∷ slot_key q (req_type id) ∷ []) s
              (is_some_of_text _ st.0, (is_some_of_text _ st.1, tt)),
          differ,
          eq_refl (slot_key q (raw id)),
          eq_refl (slot_key q (req_type id)),
        )
        refl

  next_command_from-run :
      (skip : Bool) (fuel : ℕ) (x : String) (xs : List String) (s : S)
      → length xs < fuel
      → Follows (cells (text_at c) q s) x xs
      → All (IsStored (cells (text_at c) q s)) xs
      → next_command_from b q skip fuel (ok x) s ≡ (
        ok (
            Option.map
              (command_at (cells (text_at c) q s))
              (pending (cells (text_at c) q s) skip xs)),
        s,
      )
  unfolding next_command_from
  next_command_from-run skip zero x xs s lt h st = absurd (omega arith)
  next_command_from-run skip (suc fuel) x [] s lt h st = rw ((eq_iff x "").1 h) refl
  next_command_from-run skip (suc fuel) x (y ∷ ys) s lt h st =
      rw (h.0, ne_refl y "" h.1, rel.get-eq, or_empty-got)
        (elim (Bool-cases (cells (text_at c) q s (status y) == "NotNow" && skip)) [
          | inl e ↦
              rw (e, get_next-run b c rel q)
                (next_command_from-run skip fuel _ ys s (omega arith) h.2 st.1)
          | inr n ↦ rw n (fetch_command-run s y st.0)
        ])

module _ {S : Type 0} (kv : Backend S) (c : Contents S) (rel : IsReliable kv.queue.bucket c) where
  pub retrieve_next_command-run :
      (fuel : ℕ) (r : Enrolled) (skip : Bool) (xs : List String) (s : S)
      → length xs < fuel
      → (let f = cells (text_at c) (primary_queue r.id) s in
          Follows f (f first) xs
          → All (IsStored f) xs
          → retrieve_next_command kv fuel r skip s
            ≡ (ok (Option.map (command_at f) (pending f skip xs)), s))
  unfolding retrieve_next_command
  retrieve_next_command-run fuel r skip xs s lt h st =
      let q = primary_queue r.id in
      rw (get_first-run kv.queue.bucket c rel q)
        (next_command_from-run kv.queue.bucket c rel q skip fuel _ xs s lt h st)

  -- On a store with no faults that holds the well-formed queue `xs` for the enrollment and the two
  -- keys of each of its commands, and with fuel for the queue's length, `RetrieveNextCommand` ends
  -- without an error and changes nothing. It returns the first command of the queue, or with
  -- `skipNotNow` the first whose status is not "NotNow"; if there is none it returns no command.
  pub retrieve_next_command-pending :
      (fuel : ℕ) (r : Enrolled) (skip : Bool) (xs : List String) (s : S)
      → length xs < fuel
      → IsQueue (cells (text_at c) (primary_queue r.id) s) xs
      → All (IsStored (cells (text_at c) (primary_queue r.id) s)) xs
      → retrieve_next_command kv fuel r skip s ≡ (
        ok (
            Option.map
              (command_at (cells (text_at c) (primary_queue r.id) s))
              (pending (cells (text_at c) (primary_queue r.id) s) skip xs)),
        s,
      )
  retrieve_next_command-pending fuel r skip xs s lt h st =
      retrieve_next_command-run fuel r skip xs s lt (IsQueue-Follows _ xs h) st

-- With every status before it "NotNow", the first other item is what is pending behind them.
pub pending_behind :
    (f : Cells) (ys : List String) (x : String) (zs : List String)
    → All (λ y. f (status y) ≡ "NotNow") ys
    → f (status x) ≢ "NotNow"
    → pending f true (ys ++ (x ∷ zs)) ≡ some x
pending_behind f [] x zs h n = rw (ne_refl (f (status x)) "NotNow" n) refl
pending_behind f (y ∷ ys) x zs h n =
    rw ((eq_iff (f (status y)) "NotNow").1 h.0) (pending_behind f ys x zs h.1 n)

-- What is pending with `skipNotNow` has not answered "NotNow".
pub pending-status :
    (f : Cells) (xs : List String) (x : String)
    → pending f true xs ≡ some x
    → f (status x) ≢ "NotNow"
pending-status f [] x e = cc
pending-status f (y ∷ ys) x e = elim (text-cases (f (status y)) "NotNow") [
  | inl t ↦ pending-status f ys x (rw ((eq_iff (f (status y)) "NotNow").1 t) at e)
  | inr n ↦
      let same : some y ≡ some x = rw n.1 at e in
      λ t. n.0 (ap (λ z. f (status z)) (some-injective y x same) ∙ t)
]
