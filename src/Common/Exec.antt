-- ===== src/Common/Exec.antt =====
-- Operations that change a state and may return an error. What was written before an error stays
-- written, so the state comes back beside the error too.
use nanomdm.Common.Fault.{Error, Result, ok, err}

abbrev pub Exec {ℓ} : Type ℓ → Type ℓ → Type ℓ
Exec S A = S → Result A × S

module _ {ℓ} {S A : Type ℓ} where
  abbrev pub pure : A → Exec S A
  pure a s = (ok a, s)

  abbrev pub raise : Error → Exec S A
  raise e s = (err e, s)

  -- a step with no effect on the state
  abbrev pub lift : Result A → Exec S A
  lift r s = (r, s)

  -- `if err != nil { return …(err) }`
  abbrev on_error : (Error → Error) → Result A × S → Result A × S
  on_error f (ok a, s) = (ok a, s)
  on_error f (err e, s) = (err (f e), s)

  abbrev pub map_error : (Error → Error) → Exec S A → Exec S A
  map_error f m s = on_error f (m s)

module _ {ℓ} {S A B : Type ℓ} where
  abbrev pub follow : (A → Exec S B) → Result A × S → Result B × S
  follow f (ok a, s) = f a s
  follow f (err e, s) = (err e, s)

  infixl 5 ◌>>=◌ ◌>>◌
  abbrev pub ◌>>=◌ : Exec S A → (A → Exec S B) → Exec S B
  ◌>>=◌ m f s = follow f (m s)

  abbrev pub ◌>>◌ : Exec S A → Exec S B → Exec S B
  m >> n = m >>= λ _. n

  -- Both outcomes of `m` go on, by a handler of each.
  abbrev resume : (Result A → Exec S B) → Result A × S → Result B × S
  resume f (r, s) = f r s

  abbrev pub attempt : Exec S A → (Result A → Exec S B) → Exec S B
  attempt m f s = resume f (m s)

-- a step on one part of the state
abbrev pub beside {ℓ} : {L S A : Type ℓ} → Exec S A → Exec (L × S) A
beside m (l, s) = let (r, s') = m s in (r, (l, s'))
