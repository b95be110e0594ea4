-- ===== src/Server/Verified.antt =====
-- What the endpoints of cmd/nanomdm/main.go take a request for.
use nanomdm.Common.{
  ℕ, String, ◌≡◌, ◌≢◌, refl, ap, sym, ◌∙◌, ◌⊎◌, inl, inr, Option, none, some, List, [], ◌∷◌,
  text-cases, eq_iff,
}
use nanomdm.Common.Fault.{Result, ok, err}
use nanomdm.Mdm.Enroll.{Certificate}
use nanomdm.Service.Dump.{Written}
use nanomdm.CertVerify.{pool_verify}
use nanomdm.Http.{HttpRequest, Handler, fail}
use nanomdm.Http.Extract.{extract}
use nanomdm.Http.Identity.{
  cert_extract_pem_header_middleware, cert_extract_mdm_signature_middleware, verify_body,
  next_signed, cert_verify_middleware, next_verified, next_extracted,
}
use nanomdm.Server.{Flags, Parts, Middleware}
use nanomdm.Server.Endpoints.{extract_certificate, verify_certificate, mdm_auth}

-- The middlewares of a mux run in the order in which they were used.
pub record RunsInOrder {S : Type 0} (p : Parts S) : Type 0 where
  pub chain-nil : (h : Handler (Written × S)) → p.chain [] h ≡ h
  pub chain-cons :
      (m : Middleware (Written × S)) (ms : List (Middleware (Written × S)))
      (h : Handler (Written × S))
      → p.chain (m ∷ ms) h ≡ m (p.chain ms h)

module _ {S : Type 0} (p : Parts S) (f : Flags) where
  -- The certificate is the one of the header that the flag names, or without the flag the one whose
  -- signature of the body is in the "Mdm-Signature" header.
  abbrev pub Presents : HttpRequest → Certificate → Type 0
  Presents r c =
      ((f.cert_header ≡ "")
        × ((body : String) × (r.body ≡ ok body)
            × (p.verify_mdm_signature (r.header "Mdm-Signature") body ≡ ok (some c))))
      ⊎ ((f.cert_header ≢ "") × (extract p.decoders (r.header f.cert_header) ≡ ok c))

  -- an answer with the status 400 or 500, with nothing written to the stores or to stdout
  abbrev pub Refused : Written × S → Written × S → Type 0
  Refused ls t =
      (code : ℕ) × ((code ≡ 400) ⊎ (code ≡ 500))
      × (t ≡ p.writer.error (p.writer.status_text code) code ls)

  module _ (next : Handler (Written × S)) where
    -- the next handler got the request with a certificate that was presented and verified
    abbrev pub Passed : HttpRequest → Written × S → Written × S → Type 0
    Passed r ls t =
        (c : Certificate) × Presents r c
        × (p.verify_chain c ≡ ok tt)
        × (t ≡ next (record r { certificate = some c }) ls)

    -- what becomes of a request with its certificate in the context
    abbrev Outcome : HttpRequest → Written × S → Written × S → Type 0
    Outcome r ls t =
        Refused ls t
        ⊎ ((c : Certificate) × (r.certificate ≡ some c)
            × (p.verify_chain c ≡ ok tt)
            × (t ≡ next (record r { certificate = some c }) ls))

    certified-Outcome :
        (r : HttpRequest) (ls : Written × S) (c : Certificate) (v : Result (Unit {0}))
        → r.certificate ≡ some c
        → p.verify_chain c ≡ v
        → Outcome r ls (verify_certificate p f next r ls)
    unfolding verify_certificate cert_verify_middleware next_verified pool_verify fail
    certified-Outcome r ls c (err x) e v = inl (400, inl refl, rw (e, pool_verify, v) refl)
    certified-Outcome r ls c (ok u) e v = inr (c, e, v, rw (e, pool_verify, v) refl)

    verify_certificate-Outcome :
        (r : HttpRequest) (ls : Written × S) (oc : Option Certificate)
        → r.certificate ≡ oc
        → Outcome r ls (verify_certificate p f next r ls)
    unfolding verify_certificate cert_verify_middleware next_verified pool_verify fail
    verify_certificate-Outcome r ls none e = inl (400, inl refl, rw e refl)
    verify_certificate-Outcome r ls (some c) e = certified-Outcome r ls c (p.verify_chain c) e refl

    verdict_of :
        (r : HttpRequest) (ls t : Written × S) (oc : Option Certificate)
        → ((c : Certificate) → oc ≡ some c → Presents r c)
        → Outcome (record r { certificate = oc }) ls t
        → Refused ls t ⊎ Passed r ls t
    verdict_of r ls t oc presents (inl x) = inl x
    verdict_of r ls t oc presents (inr (c, e, v, x)) = inr (c, presents c e, v, x)

    signed-Verdict :
        (r : HttpRequest) (ls : Written × S) (body : String) (out : Result (Option Certificate))
        → f.cert_header ≡ ""
        → r.body ≡ ok body
        → p.verify_mdm_signature (r.header "Mdm-Signature") body ≡ out
        → Refused ls (next_signed (verify_certificate p f next) p.writer r ls out)
          ⊎ Passed r ls (next_signed (verify_certificate p f next) p.writer r ls out)
    unfolding next_signed fail
    signed-Verdict r ls body (err x) n b e = inl (400, inl refl, refl)
    signed-Verdict r ls body (ok oc) n b e =
        verdict_of r ls _ oc (λ c h. inl (n, (body, b, e ∙ ap (λ o. ok o) h)))
          (verify_certificate-Outcome (record r { certificate = oc }) ls oc refl)

    body-Verdict :
        (r : HttpRequest) (ls : Written × S) (body : Result String)
        → f.cert_header ≡ ""
        → r.body ≡ body
        → Refused ls
            (verify_body (verify_certificate p f next) p.writer p.verify_mdm_signature r ls body)
          ⊎ Passed r ls
              (verify_body (verify_certificate p f next) p.writer p.verify_mdm_signature r ls body)
    unfolding verify_body fail
    body-Verdict r ls (err x) n b = inl (500, inr refl, refl)
    body-Verdict r ls (ok body) n b = signed-Verdict r ls body _ n b refl

    -- the request goes on without a certificate
    bare-Verdict :
        (r : HttpRequest) (ls : Written × S)
        → r.certificate ≡ none
        → Refused ls (verify_certificate p f next r ls)
          ⊎ Passed r ls (verify_certificate p f next r ls)
    bare-Verdict r ls bare =
        verdict_of r ls _ none (λ c h. cc)
          (rw (sym bare) (verify_certificate-Outcome r ls r.certificate refl))

    extracted-Verdict :
        (r : HttpRequest) (ls : Written × S) (out : Result Certificate)
        → f.cert_header ≢ ""
        → extract p.decoders (r.header f.cert_header) ≡ out
        → r.certificate ≡ none
        → Refused ls (next_extracted (verify_certificate p f next) r ls out)
          ⊎ Passed r ls (next_extracted (verify_certificate p f next) r ls out)
    unfolding next_extracted
    extracted-Verdict r ls (err x) n e bare = bare-Verdict r ls bare
    extracted-Verdict r ls (ok c) n e bare =
        verdict_of r ls _ (some c) (λ d h. inr (n, e ∙ ap (λ x. ok x) (some-injective c d h)))
          (verify_certificate-Outcome (record r { certificate = some c }) ls (some c) refl)
      where
        some-injective : (a b : Certificate) → some a ≡ some b → a ≡ b
        some-injective a b h = cc

    -- A request that comes to the mux without a certificate in its context is answered with the status
    -- 400 or 500, or it is handed on with a certificate that it presents and that was verified.
    pub mdm_auth-Verdict :
        RunsInOrder p
        → (r : HttpRequest) (ls : Written × S) → r.certificate ≡ none
        → Refused ls (mdm_auth p f next r ls) ⊎ Passed r ls (mdm_auth p f next r ls)
    unfolding mdm_auth extract_certificate cert_extract_mdm_signature_middleware
        cert_extract_pem_header_middleware
    mdm_auth-Verdict o r ls bare = elim (text-cases f.cert_header "") [
      | inl n ↦ elim (text-cases (r.header "Mdm-Signature") "") [
        | inl e ↦
            rw
              (
                o.chain-cons,
                o.chain-cons,
                o.chain-nil,
                (eq_iff f.cert_header "").1 n,
                (eq_iff (r.header "Mdm-Signature") "").1 e,
              )
              (bare-Verdict r ls bare)
        | inr e ↦
            rw (o.chain-cons, o.chain-cons, o.chain-nil, (eq_iff f.cert_header "").1 n, e.1)
              (body-Verdict r ls r.body n refl)
      ]
      | inr n ↦ elim (text-cases (r.header f.cert_header) "") [
        | inl e ↦
            rw
              (
                o.chain-cons,
                o.chain-cons,
                o.chain-nil,
                n.1,
                (eq_iff (r.header f.cert_header) "").1 e,
              )
              (bare-Verdict r ls bare)
        | inr e ↦
            rw (o.chain-cons, o.chain-cons, o.chain-nil, n.1, e.1)
              (extracted-Verdict r ls _ n.0 refl bare)
      ]
    ]
