-- ===== src/Http/Identity/Guard.antt =====
-- What the middleware of http/mdm/mdm_cert.go lets through, stacked the way cmd/nanomdm/main.go does it
-- in front of the proxy: the signature, the verification, the enrollment ID.
use nanomdm.Common.{
  ℕ, String, ◌≡◌, ◌≢◌, refl, ap, ◌∙◌, ◌⊎◌, inl, inr, Option, some, none, true, text-cases,
}
use nanomdm.Common.Fault.{Result, ok, err}
use nanomdm.Common.Exec.{Exec}
use nanomdm.Mdm.Enroll.{Certificate}
use nanomdm.Http.{HttpRequest, Writer, Handler, fail}
use nanomdm.Http.Identity.{
  cert_extract_mdm_signature_middleware, verify_body, next_signed, cert_verify_middleware,
  next_verified, cert_with_enrollment_id_middleware, look_up, next_identified, unauthorized,
}

module _ {S : Type 0} (next : Handler S) (w : Writer S)
    (verify_signature : String → String → Result (Option Certificate))
    (verify : Option Certificate → Exec S Unit) (hash : Certificate → String)
    (from_hash : String → Exec S String) where
  abbrev identified : Handler S
  identified = cert_with_enrollment_id_middleware next w hash from_hash true

  abbrev verified : Handler S
  verified = cert_verify_middleware identified w verify

  -- the middleware, with `enforce`
  abbrev pub guarded : Handler S
  guarded = cert_extract_mdm_signature_middleware verified w verify_signature

  -- an answer with the status 400 or 500
  abbrev pub Refused : S → Type 0
  Refused t =
      (text : String) × (code : ℕ) × (s' : S) × ((code ≡ 400) ⊎ (code ≡ 500))
      × (t ≡ w.error text code s')

  -- The request came with the certificate, or with the signature of it for its body.
  abbrev pub Presents : HttpRequest → Certificate → Type 0
  Presents r c =
      ((r.header "Mdm-Signature" ≡ "") × (r.certificate ≡ some c))
      ⊎ ((body : String) × (r.body ≡ ok body)
          × (verify_signature (r.header "Mdm-Signature") body ≡ ok (some c)))

  -- The next handler has got the request with a certificate that was verified and the ID, not empty,
  -- that the store has for its hash.
  abbrev pub Passes : HttpRequest → S → S → Certificate → Type 0
  Passes r s t c =
      (id : String) × (s1 : S) × (s2 : S) × (verify (some c) s ≡ (ok tt, s1))
      × (from_hash (hash c) s1 ≡ (ok id, s2))
      × (id ≢ "")
      × (t ≡ next (record r { certificate = some c; enrollment_id = id }) s2)

  -- what becomes of a request with its certificate in the context
  abbrev Outcome : HttpRequest → S → S → Type 0
  Outcome r s t = Refused t ⊎ ((c : Certificate) × (r.certificate ≡ some c) × Passes r s t c)

  abbrev pub Verdict : HttpRequest → S → S → Type 0
  Verdict r s t = Refused t ⊎ ((c : Certificate) × Presents r c × Passes r s t c)

  error-Refused :
      (text : String) (code : ℕ) (s' : S)
      → (code ≡ 400) ⊎ (code ≡ 500)
      → Refused (w.error text code s')
  error-Refused text code s' h = (text, code, s', h, refl)

  next_identified-Outcome :
      (r : HttpRequest) (s s1 : S) (c : Certificate) (out : Result String × S)
      → r.certificate ≡ some c
      → verify (some c) s ≡ (ok tt, s1)
      → from_hash (hash c) s1 ≡ out
      → Outcome r s (next_identified next w true r out)
  unfolding next_identified unauthorized fail
  next_identified-Outcome r s s1 c (err x, s2) e v h = inl (error-Refused _ 500 s2 (inr refl))
  next_identified-Outcome r s s1 c (ok id, s2) e v h = elim (text-cases id "") [
    | inl p ↦ inl (rw p (error-Refused (w.status_text 401) 400 s2 (inl refl)))
    | inr n ↦ inr (
      c,
      e,
      (
        id,
        s1,
        s2,
        v,
        h,
        n.0,
        rw n.1 (ap (λ oc. next (record r { certificate = oc; enrollment_id = id }) s2) e),
      ),
    )
  ]

  look_up-Outcome :
      (r : HttpRequest) (s s1 : S) (oc : Option Certificate)
      → r.certificate ≡ oc
      → verify oc s ≡ (ok tt, s1)
      → Outcome r s (look_up next w hash from_hash true r oc s1)
  unfolding look_up unauthorized
  look_up-Outcome r s s1 none e v = inl (error-Refused (w.status_text 401) 400 s1 (inl refl))
  look_up-Outcome r s s1 (some c) e v = next_identified-Outcome r s s1 c _ e v refl

  next_verified-Outcome :
      (r : HttpRequest) (s : S) (out : Result Unit × S)
      → verify r.certificate s ≡ out
      → Outcome r s (next_verified identified w r out)
  unfolding next_verified cert_with_enrollment_id_middleware fail
  next_verified-Outcome r s (ok u, s1) v = look_up-Outcome r s s1 r.certificate refl v
  next_verified-Outcome r s (err x, s1) v = inl (error-Refused _ 400 s1 (inl refl))

  verified-Outcome : (r : HttpRequest) (s : S) → Outcome r s (verified r s)
  unfolding cert_verify_middleware
  verified-Outcome r s = next_verified-Outcome r s (verify r.certificate s) refl

  unsigned-Verdict :
      (r : HttpRequest) (s t : S) → r.header "Mdm-Signature" ≡ "" → Outcome r s t → Verdict r s t
  unsigned-Verdict r s t e (inl x) = inl x
  unsigned-Verdict r s t e (inr (c, h, x)) = inr (c, inl (e, h), x)

  signed-Verdict :
      (r : HttpRequest) (s t : S) (body : String) (oc : Option Certificate)
      → r.body ≡ ok body
      → verify_signature (r.header "Mdm-Signature") body ≡ ok oc
      → Outcome (record r { certificate = oc }) s t
      → Verdict r s t
  signed-Verdict r s t body oc b e (inl x) = inl x
  signed-Verdict r s t body oc b e (inr (c, h, x)) = inr (c, inr (body, b, e ∙ ap (λ d. ok d) h), x)

  next_signed-Verdict :
      (r : HttpRequest) (s : S) (body : String) (out : Result (Option Certificate))
      → r.body ≡ ok body
      → verify_signature (r.header "Mdm-Signature") body ≡ out
      → Verdict r s (next_signed verified w r s out)
  unfolding next_signed fail
  next_signed-Verdict r s body (err x) b e = inl (error-Refused _ 400 s (inl refl))
  next_signed-Verdict r s body (ok oc) b e =
      signed-Verdict r s _ body oc b e (verified-Outcome (record r { certificate = oc }) s)

  verify_body-Verdict :
      (r : HttpRequest) (s : S) (body : Result String)
      → r.body ≡ body
      → Verdict r s (verify_body verified w verify_signature r s body)
  unfolding verify_body fail
  verify_body-Verdict r s (err x) b = inl (error-Refused _ 500 s (inr refl))
  verify_body-Verdict r s (ok body) b = next_signed-Verdict r s body _ b refl

  -- The middleware of the signature, the verification and the enrollment ID, with `enforce` set, answers
  -- a request itself with the status 400 or 500, never 401, or passes it on with a certificate and an
  -- enrollment ID. The certificate is then one that the request came with, or the one whose signature of
  -- the body was in its "Mdm-Signature" header where that is not empty; it passed the verification, and
  -- the ID is not empty and is the store's for its hash.
  pub guarded-Verdict : (r : HttpRequest) (s : S) → Verdict r s (guarded r s)
  unfolding cert_extract_mdm_signature_middleware
  guarded-Verdict r s = elim (text-cases (r.header "Mdm-Signature") "") [
    | inl e ↦ unsigned-Verdict r s (guarded r s) e (rw e (verified-Outcome r s))
    | inr n ↦ rw n.1 (verify_body-Verdict r s r.body refl)
  ]
