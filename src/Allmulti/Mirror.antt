-- ===== src/Allmulti/Mirror.antt =====
-- What the storage over several stores (storage/allmulti) makes of stores that each keep a state of
-- their own, such as databases of their own.
use nanomdm.Common.{
  ℕ, ◌≡◌, ◌≢◌, refl, sym, ap, ◌∙◌, ◌⊎◌, inl, inr, true, false, List, [], ◌∷◌, ◌++◌, map, All, eqb,
  arith, if◌then◌else◌,
}
use nanomdm.Allmulti.{run_all, exec_stores}

abbrev pub Among : ℕ → List ℕ → Type 0
Among j [] = ⊥
Among j (i ∷ is) = (j ≡ i) ⊎ Among j is

abbrev pub AreDistinct : List ℕ → Type 0
AreDistinct [] = Unit
AreDistinct (i ∷ is) = All (λ k. i ≢ k) is × AreDistinct is

Among-ne : (i j : ℕ) (is : List ℕ) → All (λ k. i ≢ k) is → Among j is → i ≢ j
Among-ne i j [] h among same = elim among [ ]
Among-ne i j (k ∷ is) h (inl e) same = h.0 (same ∙ e)
Among-ne i j (k ∷ is) h (inr later) same = Among-ne i j is h.1 later same

All-middle : (P : ℕ → Type 0) (xs : List ℕ) (x : ℕ) (ys : List ℕ) → All P (xs ++ (x ∷ ys)) → P x
All-middle P [] x ys h = h.0
All-middle P (y ∷ xs) x ys h = All-middle P xs x ys h.1

AreDistinct-before :
    (xs : List ℕ) (x : ℕ) (ys : List ℕ) → AreDistinct (xs ++ (x ∷ ys)) → All (λ k. x ≢ k) xs
AreDistinct-before [] x ys h = tt
AreDistinct-before (y ∷ xs) x ys h =
    ((λ e. All-middle (λ k. y ≢ k) xs x ys h.0 (sym e)), AreDistinct-before xs x ys h.1)

test_refl : (n : ℕ) → eqb n n ≡ true
test_refl n = ground arith

test_ne : (n m : ℕ) → n ≢ m → eqb n m ≡ false
test_ne n m h = ground arith

module _ {V : Type 0} where
  -- a call of the store whose state is the part `i`
  abbrev pub at_part : {R : Type 0} → ℕ → (V → R × V) → (ℕ → V) → R × (ℕ → V)
  at_part i f s = let (r, v) = f (s i) in (r, λ j. if eqb j i then v else s j)

  -- A call answers what the store 0 answers on its own part, and leaves each of the stores with what
  -- its own call leaves of its part.
  abbrev pub Mirrors : {R : Type 0} → List ℕ → (ℕ → V → R × V) → ((ℕ → V) → R × (ℕ → V)) → Type 0
  Mirrors is own m =
      (s : ℕ → V)
      → ((m s).0 ≡ (own 0 (s 0)).0) × ((j : ℕ) → Among j is → (m s).1 j ≡ (own j (s j)).1)

  module _ {R Store : Type 0} (call : Store → (ℕ → V) → R × (ℕ → V)) where
    run_all-append :
        (xs ys : List Store) (s : ℕ → V)
        → run_all call (xs ++ ys) s ≡ run_all call ys (run_all call xs s)
    unfolding run_all
    run_all-append [] ys s = refl
    run_all-append (x ∷ xs) ys s = run_all-append xs ys (call x s).1

    module _ (place : ℕ → Store) (own : ℕ → V → R × V)
        (same : (i : ℕ) (s : ℕ → V) → call (place i) s ≡ at_part i (own i) s) where
      kept_part : (i j : ℕ) (s : ℕ → V) → j ≢ i → (call (place i) s).1 j ≡ s j
      kept_part i j s n = rw (same i s, test_ne j i n) refl

      run_all-keeps :
          (is : List ℕ) (s : ℕ → V) (j : ℕ)
          → All (λ k. j ≢ k) is
          → run_all call (map place is) s j ≡ s j
      unfolding run_all
      run_all-keeps [] s j h = refl
      run_all-keeps (i ∷ is) s j h =
          run_all-keeps is (call (place i) s).1 j h.1 ∙ kept_part i j s h.0

      run_all-calls :
          (is : List ℕ) (s : ℕ → V) (j : ℕ)
          → AreDistinct is
          → Among j is
          → run_all call (map place is) s j ≡ (own j (s j)).1
      unfolding run_all
      run_all-calls [] s j d among = elim among [ ]
      run_all-calls (i ∷ is) s j d (inl e) =
          ap (run_all call (map place is) (call (place i) s).1) e
          ∙ (run_all-keeps is (call (place i) s).1 i d.0
              ∙ rw (same i s, test_refl i) (ap (λ k. (own k (s k)).1) (sym e)))
      run_all-calls (i ∷ is) s j d (inr later) =
          run_all-calls is (call (place i) s).1 j d.1 later
          ∙ ap (λ v. (own j v).1) (kept_part i j s (λ e. Among-ne i j is d.0 later (sym e)))

      map-append : (xs ys : List ℕ) → map place (xs ++ ys) ≡ map place xs ++ map place ys
      map-append [] ys = refl
      map-append (x ∷ xs) ys = ap (λ l. place x ∷ l) (map-append xs ys)

      pub exec_stores-Mirrors :
          (before after : List ℕ)
          → AreDistinct (before ++ (0 ∷ after))
          → Mirrors
              (before ++ (0 ∷ after))
              own
              (exec_stores call (map place before) (place 0) (map place after))
      unfolding exec_stores run_all
      exec_stores-Mirrors before after d s =
          let t = run_all call (map place before) s in
          let untouched : t 0 ≡ s 0 =
            run_all-keeps before s 0 (AreDistinct-before before 0 after d) in
          let whole : run_all call (map place (before ++ (0 ∷ after))) s
              ≡ run_all call (map place after) (call (place 0) t).1 =
            ap (λ l. run_all call l s) (map-append before (0 ∷ after))
            ∙ run_all-append (map place before) (map place (0 ∷ after)) s in
          (
            ap (λ p. p.0) (same 0 t) ∙ ap (λ v. (own 0 v).0) untouched,
            (λ j among.
                ap (λ (f : ℕ → V). f j) (sym whole)
                ∙ run_all-calls (before ++ (0 ∷ after)) s j d among),
          )
