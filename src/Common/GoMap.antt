-- ===== src/Common/GoMap.antt =====
-- A Go map with string keys: the list of its entries, one for a key. A nil map is an empty one.
use nanomdm.Common.{
  String, ◌≡◌, Option, none, some, List, [], ◌∷◌, arith, ◌==◌, eq_iff, if◌then◌else◌,
}

abbrev pub GoMap {ℓ} : Type ℓ → Type ℓ
GoMap A = List (String × A)

module _ {ℓ} {A : Type ℓ} where
  abbrev pub get : String → GoMap A → Option A
  get k [] = none
  get k ((j, v) ∷ m) = let rest = get k m in if j == k then some v else rest

  abbrev pub get_or : A → String → GoMap A → A
  get_or d k m = elim (get k m) [ none ↦ d | some v ↦ v ]

  -- `m[k] = v`
  abbrev pub set : String → A → GoMap A → GoMap A
  set k v [] = (k, v) ∷ []
  set k v ((j, w) ∷ m) = let rest = set k v m in if j == k then (j, v) ∷ m else (j, w) ∷ rest

  pub get-set :
      (j k : String) (v : A) (m : GoMap A)
      → get j (set k v m) ≡ (if k == j then some v else get j m)
  get-set j k v [] = ground arith
  get-set j k v ((i, w) ∷ m) = ground (arith, get-set j k v m, eq_iff i k, eq_iff i j, eq_iff k j)
