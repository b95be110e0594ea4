-- ===== src/File/Disk.antt =====
-- The functions of Go's `os` package that storage/file is written over. Files are kept by the
-- operating system, so they are a record of operations on a state `S`, and what the code relies on is
-- `IsReliable`. A name that is joined to a path is taken to have no `/` in it and not to be `.` or `..`.
use Prim.Native.Char.{Char, code}
use Prim.Native.String.{[] as nil, ◌∷◌ as ◌▸◌}
use text.Mathlib.TextLemmas.{nil-append, cons-append, tail-eq_of_cons-eq, nil≢cons}
use mathlib.Core.Option.{some-injective, none-ne-some}
use nanomdm.Common.{
  String, ◌≡◌, ◌≢◌, ◌∙◌, sym, ap, Bool-cases, inl, inr, refl, true, false, eqb, Bool, Option, none,
  some, List, ◌==◌, ◌^^◌, if◌then◌else◌,
}
use nanomdm.Common.Fault.{Result, ok, err, not_exist}
use nanomdm.Common.Exec.{Exec}

-- path.Join
abbrev pub join : String → String → String
join a b = a ^^ ("/" ^^ b)

abbrev above : Char → Option String → Option String
above ch (some p) = some (ch ▸ p)
above ch none = if eqb (code ch) 47 then some nil else none

-- what is before the last "/" of a path, if it has one
abbrev pub parent : String → Option String
parent nil = none
parent (ch ▸ s) = let rest = parent s in above ch rest

abbrev slash_char : Char
slash_char = "/"

slash : (name : String) → "/" ^^ name ≡ slash_char ▸ name
slash name = cons-append slash_char "" name ∙ ap (λ (t : String). slash_char ▸ t) (nil-append name)

-- the path of a name in a directory
pub parent-join : (d name : String) → parent name ≡ none → parent (join d name) ≡ some d
parent-join nil name e = ap parent (nil-append ("/" ^^ name) ∙ slash name) ∙ ap (above slash_char) e
parent-join (ch ▸ d) name e =
    ap parent (cons-append ch d ("/" ^^ name)) ∙ ap (above ch) (parent-join d name e)

above-ne : (ch : Char) (s : String) (o : Option String) → o ≢ some s → above ch o ≢ some (ch ▸ s)
above-ne ch s (some p) n e = n (ap some (tail-eq_of_cons-eq (some-injective _ _ e)))
above-ne ch s none n e = elim (Bool-cases (eqb (code ch) 47)) [
  | inl b ↦
      let top : above ch none ≡ some nil = rw b refl in nil≢cons (some-injective _ _ (sym top ∙ e))
  | inr b ↦ let top : above ch none ≡ none = rw b refl in none-ne-some _ (sym top ∙ e)
]

-- no path is in itself
pub parent-ne : (k : String) → parent k ≢ some k
parent-ne nil e = none-ne-some _ e
parent-ne (ch ▸ s) e = above-ne ch s (parent s) (parent-ne s) e

pub record Os (S : Type 0) : Type 0 where
  pub mkdir : String → Exec S Unit
  pub mkdir_all : String → Exec S Unit
  pub write_file : String → String → Exec S Unit
  pub read_file : String → Exec S String
  pub append_file : String → String → Exec S Unit
  pub create : String → Exec S Unit
  pub stat : String → Exec S Unit
  pub mod_time : String → Exec S String
  pub remove : String → Exec S Unit
  pub remove_all : String → Exec S Unit
  pub rename : String → String → Exec S Unit
  -- the names in a directory in order, each with whether it is a directory
  pub read_dir : String → Exec S (List (String × Bool))

-- The contents of the files in a state, and which paths are directories.
pub record Contents (S : Type 0) : Type 0 where
  pub is_dir : S → String → Bool
  pub find : S → String → Option String
  pub put : String → String → S → S
  pub del : String → S → S

abbrev pub got : Option String → Result String
got none = err not_exist
got (some v) = ok v

abbrev pub gone : Option String → Result (Unit {0})
gone none = err not_exist
gone (some v) = ok tt

-- Files with no faults: a directory can be made, which changes neither files nor what is in it; a write
-- into a directory that exists, to a path that is no directory, is what later reads find.
pub record IsReliable {S : Type 0} (os : Os S) (c : Contents S) : Type 0 where
  pub find-put :
      (k v : String) (s : S) (j : String)
      → c.find (c.put k v s) j ≡ (if k == j then some v else c.find s j)
  pub find-del :
      (k : String) (s : S) (j : String)
      → c.find (c.del k s) j ≡ (if k == j then none else c.find s j)
  pub is_dir-put : (k v : String) (s : S) (j : String) → c.is_dir (c.put k v s) j ≡ c.is_dir s j
  pub is_dir-del : (k : String) (s : S) (j : String) → c.is_dir (c.del k s) j ≡ c.is_dir s j
  pub mkdir_all-makes :
      (k : String) (s : S)
      → (s' : S) × (os.mkdir_all k s ≡ (ok tt, s'))
        × (c.is_dir s' k ≡ true)
        × ((j : String) → parent j ≡ some k → c.is_dir s' j ≡ c.is_dir s j)
        × ((j : String) → c.find s' j ≡ c.find s j)
  pub write_file-eq :
      (k d v : String) (s : S)
      → parent k ≡ some d
      → c.is_dir s d ≡ true
      → c.is_dir s k ≡ false
      → os.write_file k v s ≡ (ok tt, c.put k v s)
  pub read_file-eq :
      (k : String) (s : S) → c.is_dir s k ≡ false → os.read_file k s ≡ (got (c.find s k), s)
  pub remove-eq :
      (k : String) (s : S) → c.is_dir s k ≡ false → os.remove k s ≡ (gone (c.find s k), c.del k s)
