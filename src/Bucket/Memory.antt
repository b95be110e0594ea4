-- ===== src/Bucket/Memory.antt =====
-- Buckets held in memory, numbered, each an association list, with transactions that run their body
-- at once: the concrete store on which the theorems about reliable buckets are tried.
use nanomdm.Common.{
  ℕ, String, ◌≡◌, refl, true, Option, none, some, List, [], ◌∷◌, arith, ◌==◌, eq_iff, if◌then◌else◌,
  All, eqb, ap,
}
use nanomdm.Common.Fault.{Result, ok, err}
use nanomdm.Bucket.{
  Bucket, TxnBucket, Contents, IsReliable, CommitsBody, got, is_some, put_all, del_all, entries_at,
}
use text.Mathlib.Text.{starts_with}

abbrev pub Assoc : Type 0
Assoc = List (String × String)

abbrev pub Memory : Type 0
Memory = ℕ → Assoc

abbrev pub lookup : String → Assoc → Option String
lookup k [] = none
lookup k ((j, v) ∷ m) = if j == k then some v else lookup k m

abbrev pub without : String → Assoc → Assoc
without k [] = []
without k ((j, v) ∷ m) = let rest = without k m in if j == k then rest else (j, v) ∷ rest

abbrev pub with_prefix : String → Assoc → List String
with_prefix p [] = []
with_prefix p ((j, v) ∷ m) =
    let rest = with_prefix p m in if starts_with j p then j ∷ rest else rest

abbrev pub at_number : ℕ → Assoc → Memory → Memory
at_number n a s m = if eqb n m then a else s m

abbrev pub contents : ℕ → Contents Memory
contents n = record {
  find = λ s k. lookup k (s n);
  put = λ k v s. at_number n ((k, v) ∷ without k (s n)) s;
  del = λ k s. at_number n (without k (s n)) s;
}

abbrev pub collect : (String → Result String) → List String → Result Assoc
collect get [] = ok []
collect get (k ∷ ks) = elim (get k) [
  | ok v ↦ elim (collect get ks) [ ok m ↦ ok ((k, v) ∷ m) | err e ↦ err e ]
  | err e ↦ err e
]

abbrev pub bucket : ℕ → Bucket Memory
bucket n =
    let c = contents n in
    record {
      get = λ k s. (got (c.find s k), s);
      set = λ k v s. (ok tt, c.put k v s);
      has = λ k s. (ok (is_some (c.find s k)), s);
      delete = λ k s. (ok tt, c.del k s);
      keys_prefix = λ p s. (ok (with_prefix p (s n)), s);
      delete_slice = λ ks s. (ok tt, del_all c ks s);
      set_map = λ m s. (ok tt, put_all c m s);
      get_map = λ ks s. (collect (λ k. got (c.find s k)) ks, s);
    }

abbrev pub txn_bucket : ℕ → TxnBucket Memory
txn_bucket n = record { bucket = bucket n; txn = λ f. f (bucket n); txn_noting = λ f. f (bucket n) }

lookup-without :
    (k j : String) (m : Assoc) → lookup j (without k m) ≡ (if k == j then none else lookup j m)
lookup-without k j [] = ground arith
lookup-without k j ((i, v) ∷ m) =
    ground (arith, lookup-without k j m, eq_iff i k, eq_iff i j, eq_iff k j)

eqb_refl : (n : ℕ) → eqb n n ≡ true
eqb_refl n = ground arith

collect-eq :
    (n : ℕ) (ks : List String) (s : Memory)
    → All (λ k. is_some ((contents n).find s k) ≡ true) ks
    → collect (λ k. got ((contents n).find s k)) ks ≡ ok (entries_at (contents n) s ks)
collect-eq n [] s h = refl
collect-eq n (k ∷ ks) s h = ground (arith, collect-eq n ks s h.1)

pub bucket-IsReliable : (n : ℕ) → IsReliable (bucket n) (contents n)
bucket-IsReliable n = record {
  find-put = λ k v s j. rw (eqb_refl n) (ground (arith, lookup-without k j (s n)));
  find-del = λ k s j. rw (eqb_refl n) (lookup-without k j (s n));
  get-eq = λ k s. refl;
  has-eq = λ k s. refl;
  set-eq = λ k v s. refl;
  delete-eq = λ k s. refl;
  delete_slice-eq = λ ks s. refl;
  set_map-eq = λ m s. refl;
  get_map-eq = λ ks s h. ap (λ r. (r, s)) (collect-eq n ks s h);
}

pub txn_bucket-CommitsBody : (n : ℕ) → CommitsBody (txn_bucket n)
txn_bucket-CommitsBody n = record { txn-eq = λ f s s' h. h; txn_noting-eq = λ f s s' h. h }

abbrev pub empty : Memory
empty n = []
