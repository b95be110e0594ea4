-- ===== src/Cli/Rows.antt =====
-- Storage.Parse of cli/cli.go takes the values of its flags row by row.
use nanomdm.Common.{
  ℕ, zero, suc, String, ◌≡◌, refl, ap, sym, ◌∙◌, ◌⊎◌, inl, inr, true, false, not, ◌&&◌, List, [],
  ◌∷◌, ◌++◌, arith, eqb, ltb, length, Bool-cases,
}
use nanomdm.Common.Fault.{Result, ok, err, ◌>>=◌}
use nanomdm.Cli.{
  Storage, Backends, at_index, option_at, set_up, set_up_from, combined, with_default, parse,
}

-- the values from an index on
abbrev after : ℕ → List String → List String
after i [] = []
after zero (x ∷ xs) = x ∷ xs
after (suc i) (x ∷ xs) = after i xs

at_index-after :
    (i : ℕ) (l : List String) (x : String) (xs : List String)
    → after i l ≡ x ∷ xs
    → (at_index i l ≡ ok x) × (after (suc i) l ≡ xs)
unfolding at_index
at_index-after i [] x xs e = cc
at_index-after zero (y ∷ []) x xs e = (cc, cc)
at_index-after zero (y ∷ z ∷ l) x xs e = (cc, cc)
at_index-after (suc i) (y ∷ l) x xs e = at_index-after i l x xs e

-- a storage's name with its DSN and its options, none where the flag was not given
abbrev pub rows : List String → List String → List String → List (String × String × String)
rows [] dsns options = []
rows (n ∷ ns) [] options = []
rows (n ∷ ns) (d ∷ ds) [] = (n, d, "") ∷ rows ns ds []
rows (n ∷ ns) (d ∷ ds) (o ∷ os) = (n, d, o) ∷ rows ns ds os

module _ {D A : Type 0} (b : Backends D A) where
  -- each row set up, up to the first error
  abbrev pub all_set_up : List (String × String × String) → Result (List A)
  all_set_up [] = ok []
  all_set_up ((n, d, o) ∷ rs) =
      let rest = all_set_up rs in set_up b n d o >>= λ first. rest >>= λ more. ok (first ∷ more)

  set_up_from-rows_bare :
      (s : Storage) (i : ℕ) (names dsns : List String)
      → s.options ≡ []
      → after i s.dsn ≡ dsns
      → length names ≡ length dsns
      → set_up_from b s i names ≡ all_set_up (rows names dsns [])
  unfolding set_up_from option_at
  set_up_from-rows_bare s i [] dsns none_given e n = refl
  set_up_from-rows_bare s i (name ∷ names) [] none_given e n = absurd (omega (arith, n))
  set_up_from-rows_bare s i (name ∷ names) (d ∷ ds) none_given e n =
      let (here, later) = at_index-after i s.dsn d ds e in
      let same : length names ≡ length ds = omega (arith, n) in
      rw (here, none_given, set_up_from-rows_bare s (suc i) names ds none_given later same) refl

  set_up_from-rows :
      (s : Storage) (i : ℕ) (names dsns options : List String)
      → ltb 0 (length s.options) ≡ true
      → after i s.dsn ≡ dsns
      → after i s.options ≡ options
      → length names ≡ length dsns
      → length names ≡ length options
      → set_up_from b s i names ≡ all_set_up (rows names dsns options)
  unfolding set_up_from option_at
  set_up_from-rows s i [] dsns options given e f n m = refl
  set_up_from-rows s i (name ∷ names) [] options given e f n m = absurd (omega (arith, n))
  set_up_from-rows s i (name ∷ names) (d ∷ ds) [] given e f n m = absurd (omega (arith, m))
  set_up_from-rows s i (name ∷ names) (d ∷ ds) (o ∷ os) given e f n m =
      let (here, later) = at_index-after i s.dsn d ds e in
      let (here', later') = at_index-after i s.options o os f in
      let same : length names ≡ length ds = omega (arith, n) in
      let same' : length names ≡ length os = omega (arith, m) in
      rw (here, given, here', set_up_from-rows s (suc i) names ds os given later later' same same')
        refl

  after-zero : (l : List String) → after 0 l ≡ l
  after-zero [] = refl
  after-zero (x ∷ xs) = refl

  length-snoc : (l : List String) (x : String) → length (l ++ (x ∷ [])) ≡ suc (length l)
  length-snoc [] x = refl
  length-snoc (y ∷ l) x = ap suc (length-snoc l x)

  is_empty : (l : List String) → ltb 0 (length l) ≡ false → l ≡ []
  is_empty [] e = refl
  is_empty (x ∷ l) e = absurd (ground (arith, e))

  -- the flag of the options is not given, or as often as that of the storages
  abbrev pub FitsOptions : Storage → Type 0
  FitsOptions s = (s.options ≡ []) ⊎ (length s.options ≡ length s.storage)

  all_rows :
      (t : Storage)
      → length t.storage ≡ length t.dsn
      → FitsOptions t
      → set_up_from b t 0 t.storage ≡ all_set_up (rows t.storage t.dsn t.options)
  all_rows t n fits = elim (Bool-cases (ltb 0 (length t.options))) [
    | inl given ↦
        let same : length t.storage ≡ length t.options = counted fits given in
        set_up_from-rows t 0 t.storage t.dsn t.options given (after-zero t.dsn)
          (after-zero t.options) n same
    | inr none_given ↦
        let e = is_empty t.options none_given in
        set_up_from-rows_bare t 0 t.storage t.dsn e (after-zero t.dsn) n
        ∙ ap (λ os. all_set_up (rows t.storage t.dsn os)) (sym e)
  ]
    where
      counted :
          FitsOptions t → ltb 0 (length t.options) ≡ true → length t.storage ≡ length t.options
      counted (inl e) given = absurd (ground (arith, ap length e, given))
      counted (inr e) given = sym e

  fitting :
      (s : Storage)
      → FitsOptions s
      → (ltb 0 (length s.options) && not (eqb (length s.storage) (length s.options))) ≡ false
  fitting s (inl e) = rw e refl
  fitting s (inr e) = ground (arith, e)

  default_options : (s : Storage) → (with_default s).options ≡ s.options
  default_options s = elim (Bool-cases (ltb (length s.storage) 1)) [
    | inl e ↦ rw e refl
    | inr e ↦ rw e refl
  ]

  default_even :
      (s : Storage)
      → length s.storage ≡ length s.dsn
      → length (with_default s).storage ≡ length (with_default s).dsn
  default_even s n = elim (Bool-cases (ltb (length s.storage) 1)) [
    | inl e ↦ rw e (length-snoc s.storage "filekv" ∙ ap suc n ∙ sym (length-snoc s.dsn "dbkv"))
    | inr e ↦ rw e n
  ]

  default_fits : (s : Storage) → FitsOptions s → FitsOptions (with_default s)
  default_fits s (inl e) = inl (default_options s ∙ e)
  default_fits s (inr e) = elim (Bool-cases (ltb (length s.storage) 1)) [
    | inl few ↦
        let none_given : ltb 0 (length s.options) ≡ false = ground (arith, few, e) in
        inl (default_options s ∙ is_empty s.options none_given)
    | inr many ↦ rw many (inr e)
  ]

  -- what Parse is to give for the rows of the flags
  abbrev pub expected : List (String × String × String) → Result A
  expected [] = set_up b "filekv" "dbkv" ""
  expected ((n, d, o) ∷ []) = set_up b n d o
  expected (r ∷ q ∷ rs) = all_set_up (r ∷ q ∷ rs) >>= λ all. ok (b.allmulti all)

  combined_one :
      (x : Result A)
      → ((x >>= λ first. ok [] >>= λ more. ok (first ∷ more)) >>= λ all. combined b all) ≡ x
  unfolding combined
  combined_one (ok a) = refl
  combined_one (err e) = refl

  abbrev joined : Result A → Result A → Result (List A) → Result (List A)
  joined x y z =
      x >>= λ first. (y >>= λ next. z >>= λ more. ok (next ∷ more)) >>= λ more. ok (first ∷ more)

  combined_several :
      (x y : Result A) (z : Result (List A))
      → (joined x y z >>= λ all. combined b all) ≡ (joined x y z >>= λ all. ok (b.allmulti all))
  unfolding combined
  combined_several (err e) y z = refl
  combined_several (ok a) (err e) z = refl
  combined_several (ok a) (ok c) (err e) = refl
  combined_several (ok a) (ok c) (ok l) = refl

  combined_rows :
      (r : String × String × String) (rs : List (String × String × String))
      → (all_set_up (r ∷ rs) >>= λ all. combined b all) ≡ expected (r ∷ rs)
  combined_rows (n, d, o) [] = combined_one (set_up b n d o)
  combined_rows (n, d, o) ((n', d', o') ∷ rs) =
      combined_several (set_up b n d o) (set_up b n' d' o') (all_set_up rs)

  abbrev of_flags : List String → List String → List String → Storage
  of_flags names dsns options = record { storage = names; dsn = dsns; options = options }

  combined_default :
      (names dsns options : List String)
      → length names ≡ length dsns
      → FitsOptions (of_flags names dsns options)
      → (all_set_up (
            rows
              (with_default (of_flags names dsns options)).storage
              (with_default (of_flags names dsns options)).dsn
              options)
          >>= λ all. combined b all)
        ≡ expected (rows names dsns options)
  combined_default [] [] [] n fits = combined_one (set_up b "filekv" "dbkv" "")
  combined_default [] [] (o ∷ os) n (inl e) = absurd cc
  combined_default [] [] (o ∷ os) n (inr e) = absurd (omega (arith, e))
  combined_default [] (d ∷ ds) options n fits = absurd (omega (arith, n))
  combined_default (m ∷ ms) [] options n fits = absurd (omega (arith, n))
  combined_default (m ∷ ms) (d ∷ ds) [] n fits =
      let some_given : ltb (suc (length ms)) 1 ≡ false = ground arith in
      rw some_given (combined_rows (m, d, "") (rows ms ds []))
  combined_default (m ∷ ms) (d ∷ ds) (o ∷ os) n fits =
      let some_given : ltb (suc (length ms)) 1 ≡ false = ground arith in
      rw some_given (combined_rows (m, d, o) (rows ms ds os))

  -- With as many DSNs as storages, and as many options or none, no index is out of range, and Parse
  -- gives what is expected of the rows of its flags, each a storage's name with the DSN and the
  -- options at its position: of one row the storage that it sets up, or its error; of several the
  -- dispatcher over the storages that they set up, in their order, or the first error; of none the
  -- storage "filekv" at "dbkv".
  pub parse-rows :
      (s : Storage)
      → length s.storage ≡ length s.dsn
      → FitsOptions s
      → parse b s ≡ expected (rows s.storage s.dsn s.options)
  unfolding parse
  parse-rows s n fits =
      let even : eqb (length s.storage) (length s.dsn) ≡ true = ground (arith, n) in
      let t = with_default s in
      rw (even, fitting s fits)
        (ap (λ (r : Result (List A)). r >>= λ all. combined b all)
            (all_rows t (default_even s n) (default_fits s fits)
              ∙ ap (λ os. all_set_up (rows t.storage t.dsn os)) (default_options s))
          ∙ combined_default s.storage s.dsn s.options n fits)
