-- ===== src/File/Runs.antt =====
-- What the helpers of storage/file/file.go do to files with no faults.
use text.Mathlib.TextLemmas.{append_cancel_left}
use nanomdm.Common.{
  ℕ, String, ◌≡◌, refl, false, ◌∙◌, ◌≢◌, ◌⊎◌, inl, inr, Option, none, some, ◌==◌, ne_refl, eq_refl,
  if◌then◌else◌,
}
use nanomdm.Common.Fault.{ok}
use nanomdm.Common.Decimal.{atoi}
use nanomdm.File.{FileStorage, dir, dir_prefix, write_file, read_numeric_file, quietly}
use nanomdm.File.Disk.{Contents, IsReliable, parent, parent-join}

-- the number in a file that may be missing
abbrev pub number : Option String → ℕ
number none = atoi ""
number (some v) = atoi v

pub there : (o : Option String) → (o ≡ none) ⊎ ((v : String) × (o ≡ some v))
there none = inl refl
there (some v) = inr (v, refl)

module _ {S : Type 0} (fs : FileStorage S) (c : Contents S) (rel : IsReliable fs.os c) where
  -- `s'` is `s` with one file written or removed
  abbrev pub Sets : String → Option String → S → S → Type 0
  Sets k v s s' = (j : String) → c.find s' j ≡ (if k == j then v else c.find s j)

  pub dir_prefix-ne : (id a b : String) → a ≢ b → dir_prefix fs id a ≢ dir_prefix fs id b
  dir_prefix-ne id a b n e = n (append_cancel_left "/" a b (append_cancel_left (dir fs id) _ _ e))

  pub Sets-same : (k : String) (v : Option String) (s s' : S) → Sets k v s s' → c.find s' k ≡ v
  Sets-same k v s s' h = h k ∙ rw (eq_refl k) refl

  pub Sets-other :
      (id a b : String) (v : Option String) (s s' : S)
      → a ≢ b
      → Sets (dir_prefix fs id a) v s s'
      → c.find s' (dir_prefix fs id b) ≡ c.find s (dir_prefix fs id b)
  Sets-other id a b v s s' n h =
      h (dir_prefix fs id b)
      ∙ rw (ne_refl (dir_prefix fs id a) (dir_prefix fs id b) (dir_prefix-ne id a b n)) refl

  -- the path of a file of an enrollment is no directory
  abbrev pub IsPlain : String → S → String → Type 0
  IsPlain id s name = c.is_dir s (dir_prefix fs id name) ≡ false

  -- what is a directory in that of an enrollment stays one, and nothing else becomes one
  abbrev pub KeepsDirs : String → S → S → Type 0
  KeepsDirs id s s' =
      (name : String)
      → parent name ≡ none
      → c.is_dir s' (dir_prefix fs id name) ≡ c.is_dir s (dir_prefix fs id name)

  pub write_file-run :
      (id name v : String) (s : S)
      → parent name ≡ none
      → IsPlain id s name
      → (s' : S) × (write_file fs id name v s ≡ (ok tt, s'))
        × Sets (dir_prefix fs id name) (some v) s s'
        × KeepsDirs id s s'
  unfolding write_file
  write_file-run id name v s bare plain =
      let (s₁, made, is_made, within, keeps) = rel.mkdir_all-makes (dir fs id) s in
      let k = dir_prefix fs id name in
      let here = parent-join (dir fs id) name bare in
      (
        c.put k v s₁,
        rw (made, rel.write_file-eq k (dir fs id) v s₁ here is_made (within k here ∙ plain)) refl,
        (λ j. rel.find-put k v s₁ j ∙ rw (keeps j) refl),
        (λ other b. rel.is_dir-put k v s₁ _ ∙ within _ (parent-join (dir fs id) other b)),
      )

  pub remove-run :
      (id name : String) (s : S)
      → IsPlain id s name
      → (s' : S) × (quietly (fs.os.remove (dir_prefix fs id name)) s ≡ (ok tt, s'))
        × Sets (dir_prefix fs id name) none s s'
        × KeepsDirs id s s'
  remove-run id name s plain =
      let k = dir_prefix fs id name in
      (
        c.del k s,
        elim (there (c.find s k)) [
          | inl e ↦ rw (rel.remove-eq k s plain, e) refl
          | inr (v, e) ↦ rw (rel.remove-eq k s plain, e) refl
        ],
        rel.find-del k s,
        (λ other b. rel.is_dir-del k s _),
      )

  pub read_numeric_file-run :
      (id name : String) (s : S)
      → IsPlain id s name
      → read_numeric_file fs id name s ≡ (ok (number (c.find s (dir_prefix fs id name))), s)
  unfolding read_numeric_file
  read_numeric_file-run id name s plain =
      let k = dir_prefix fs id name in
      elim (there (c.find s k)) [
        | inl e ↦ rw (rel.read_file-eq k s plain, e) refl
        | inr (v, e) ↦ rw (rel.read_file-eq k s plain, e) refl
      ]
