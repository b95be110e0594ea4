-- ===== src/Bucket.antt =====
-- The key-value buckets of github.com/micromdm/nanolib/storage/kv, which the storage backend is
-- written over. That module is not part of the repository, so a bucket is a record of operations
-- on a state `S`, and what the code relies on is `IsReliable`.
pub mod Memory
use nanomdm.Common.{
  String, ◌≡◌, refl, ap, ◌∙◌, Bool, true, false, Option, none, some, List, [], ◌∷◌, ◌==◌,
  if◌then◌else◌, elem, All,
}
use nanomdm.Common.Fault.{Error, Result, ok, err, key_not_found}
use nanomdm.Common.Exec.{Exec}

-- `kv.Bucket` with the helpers `kv.DeleteSlice`, `kv.SetMap` and `kv.GetMap` over it. Byte strings
-- are texts, and a Go map literal is the list of its entries.
pub record Bucket (S : Type 0) : Type 0 where
  pub get : String → Exec S String
  pub set : String → String → Exec S Unit
  pub has : String → Exec S Bool
  pub delete : String → Exec S Unit
  pub keys_prefix : String → Exec S (List String)
  pub delete_slice : List String → Exec S Unit
  pub set_map : List (String × String) → Exec S Unit
  pub get_map : List String → Exec S (List (String × String))

-- map[string]error
abbrev pub ErrorMap : Type 0
ErrorMap = List (String × Error)

-- `kv.TxnCRUDBucket`; `txn` is `kv.PerformCRUDBucketTxn` or `kv.PerformBucketTxn`, which hands the
-- bucket of a transaction to its body.
pub record TxnBucket (S : Type 0) : Type 0 where
  pub bucket : Bucket S
  pub open bucket use *
  pub txn : (Bucket S → Exec S Unit) → Exec S Unit
  -- the same for a body that also writes a Go map of errors, a variable of its caller
  pub txn_noting : (Bucket S → Exec (ErrorMap × S) Unit) → Exec (ErrorMap × S) Unit

-- The map that a bucket holds in a state.
pub record Contents (S : Type 0) : Type 0 where
  pub find : S → String → Option String
  pub put : String → String → S → S
  pub del : String → S → S

abbrev pub got : Option String → Result String
got none = err key_not_found
got (some v) = ok v

abbrev pub is_some : Option String → Bool
is_some none = false
is_some (some v) = true

abbrev pub text_of : Option String → String
text_of none = ""
text_of (some v) = v

module _ {S : Type 0} where
  abbrev pub put_all : Contents S → List (String × String) → S → S
  put_all c [] s = s
  put_all c ((k, v) ∷ m) s = put_all c m (c.put k v s)

  abbrev pub del_all : Contents S → List String → S → S
  del_all c [] s = s
  del_all c (k ∷ ks) s = del_all c ks (c.del k s)

  abbrev pub text_at : Contents S → S → String → String
  text_at c s k = text_of (c.find s k)

  abbrev pub entries_at : Contents S → S → List String → List (String × String)
  entries_at c s [] = []
  entries_at c s (k ∷ ks) = (k, text_at c s k) ∷ entries_at c s ks

  -- A store with no faults: no call fails but for a missing key, deleting a missing key is no
  -- error, and a write is what later reads find.
  pub record IsReliable (b : Bucket S) (c : Contents S) : Type 0 where
    pub find-put :
        (k v : String) (s : S) (j : String)
        → c.find (c.put k v s) j ≡ (if k == j then some v else c.find s j)
    pub find-del :
        (k : String) (s : S) (j : String)
        → c.find (c.del k s) j ≡ (if k == j then none else c.find s j)
    pub get-eq : (k : String) (s : S) → b.get k s ≡ (got (c.find s k), s)
    pub has-eq : (k : String) (s : S) → b.has k s ≡ (ok (is_some (c.find s k)), s)
    pub set-eq : (k v : String) (s : S) → b.set k v s ≡ (ok tt, c.put k v s)
    pub delete-eq : (k : String) (s : S) → b.delete k s ≡ (ok tt, c.del k s)
    pub delete_slice-eq : (ks : List String) (s : S) → b.delete_slice ks s ≡ (ok tt, del_all c ks s)
    pub set_map-eq : (m : List (String × String)) (s : S) → b.set_map m s ≡ (ok tt, put_all c m s)
    pub get_map-eq :
        (ks : List String) (s : S)
        → All (λ k. is_some (c.find s k) ≡ true) ks
        → b.get_map ks s ≡ (ok (entries_at c s ks), s)

  -- A transaction whose body succeeds has the effects that its body has outside of one.
  pub record CommitsBody (t : TxnBucket S) : Type 0 where
    pub txn-eq :
        (f : Bucket S → Exec S Unit) (s s' : S)
        → f t.bucket s ≡ (ok tt, s')
        → t.txn f s ≡ (ok tt, s')
    pub txn_noting-eq :
        (f : Bucket S → Exec (ErrorMap × S) Unit) (s s' : ErrorMap × S)
        → f t.bucket s ≡ (ok tt, s')
        → t.txn_noting f s ≡ (ok tt, s')

text_of-if :
    (t : Bool) (a o : Option String)
    → text_of (if t then a else o) ≡ (if t then text_of a else text_of o)
text_of-if true a o = refl
text_of-if false a o = refl

module _ {S : Type 0} (b : Bucket S) (c : Contents S) (rel : IsReliable b c) where
  pub text_at-put :
      (k v : String) (s : S) (j : String)
      → text_at c (c.put k v s) j ≡ (if k == j then v else text_at c s j)
  text_at-put k v s j =
      ap text_of (rel.find-put k v s j) ∙ text_of-if (k == j) (some v) (c.find s j)

  pub text_at-del :
      (k : String) (s : S) (j : String)
      → text_at c (c.del k s) j ≡ (if k == j then "" else text_at c s j)
  text_at-del k s j = ap text_of (rel.find-del k s j) ∙ text_of-if (k == j) none (c.find s j)
