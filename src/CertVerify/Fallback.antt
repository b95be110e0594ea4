-- ===== src/CertVerify/Fallback.antt =====
-- What certverify/fallback.go accepts.
use nanomdm.Common.{String, ◌≡◌, refl, ◌↔◌, inl, inr, ◌⊎◌, Option, List, [], ◌∷◌, ℕ, suc}
use nanomdm.Common.Fault.{Error, Result, ok, err}
use nanomdm.Mdm.Enroll.{Certificate}
use nanomdm.CertVerify.{CertVerifier, fallback_verify, fallback_from}

-- one of the verifiers passes the certificate
abbrev pub Passes : Option Certificate → List CertVerifier → Type 0
Passes cert [] = ⊥
Passes cert (v ∷ vs) = (v cert ≡ ok tt) ⊎ Passes cert vs

module _ (error_text : Error → String) (cert : Option Certificate) where
  first_or_rest :
      (v : CertVerifier) (vs : List CertVerifier) (i : ℕ) (errs : List String)
      (r : Result (Unit {0}))
      → v cert ≡ r
      → ((i : ℕ) (errs : List String)
          → (fallback_from error_text cert i vs errs ≡ ok tt) ↔ Passes cert vs)
      → (fallback_from error_text cert i (v ∷ vs) errs ≡ ok tt) ↔ Passes cert (v ∷ vs)
  unfolding fallback_from
  first_or_rest v vs i errs (ok u) e ih = (λ h. inl e, λ p. rw e refl)
  first_or_rest v vs i errs (err x) e ih = (
    λ h. inr ((ih (suc i) _).0 (rw (e, fallback_from) at h)),
    λ p. rw (e, fallback_from) ((ih (suc i) _).1 (later p)),
  )
    where
      later : Passes cert (v ∷ vs) → Passes cert vs
      later (inl p) = cc (e, p)
      later (inr p) = p

  fallback_from-Passes :
      (vs : List CertVerifier) (i : ℕ) (errs : List String)
      → (fallback_from error_text cert i vs errs ≡ ok tt) ↔ Passes cert vs
  unfolding fallback_from
  fallback_from-Passes [] i errs = (λ h. cc, λ p. elim p [ ])
  fallback_from-Passes (v ∷ vs) i errs =
      first_or_rest v vs i errs (v cert) refl (fallback_from-Passes vs)

  -- FallbackVerifier passes a certificate, or none, exactly where one of its verifiers does.
  pub fallback_verify-Passes :
      (vs : List CertVerifier) → (fallback_verify error_text cert vs ≡ ok tt) ↔ Passes cert vs
  unfolding fallback_verify
  fallback_verify-Passes vs = fallback_from-Passes vs 0 []
