-- ===== src/Http/Identity.antt =====
-- http/mdm/mdm_cert.go: the middleware that puts the certificate of a request into its context, that
-- verifies it, and that looks up its enrollment ID. Logging is left out.
pub mod Guard
use nanomdm.Common.{String, List, [], ◌∷◌, Option, some, none, Bool, ◌==◌, if◌then◌else◌}
use nanomdm.Common.Fault.{Result, ok, err}
use nanomdm.Common.Exec.{Exec}
use nanomdm.Mdm.Enroll.{Certificate}
use nanomdm.Http.{HttpRequest, Writer, Handler, fail}
use nanomdm.Http.Extract.{Decoders, extract}

abbrev with_certificate : HttpRequest → Option Certificate → HttpRequest
with_certificate r c = record r { certificate = c }

module _ {S : Type 0} (next : Handler S) where
  unfoldable pub next_extracted : HttpRequest → S → Result Certificate → S
  next_extracted r s (ok c) = next (with_certificate r (some c)) s
  next_extracted r s (err e) = next r s

  -- CertExtractPEMHeaderMiddleware
  unfoldable pub cert_extract_pem_header_middleware : Decoders → String → Handler S
  unfolding next_extracted
  cert_extract_pem_header_middleware d header r s =
      let value = r.header header in
      if value == "" then next r s else next_extracted r s (extract d value)

  next_peer : HttpRequest → S → Option (List Certificate) → S
  next_peer r s (some (c ∷ cs)) = next (with_certificate r (some c)) s
  next_peer r s (some []) = next r s
  next_peer r s none = next r s

  -- CertExtractTLSMiddleware
  unfoldable pub cert_extract_tls_middleware : Handler S
  unfolding next_peer
  cert_extract_tls_middleware r s = next_peer r s r.peer_certificates

  module _ (w : Writer S) where
    unfoldable pub next_signed : HttpRequest → S → Result (Option Certificate) → S
    next_signed r s (ok c) = next (with_certificate r c) s
    next_signed r s (err e) = fail w 400 s

    unfoldable pub verify_body :
        (String → String → Result (Option Certificate)) → HttpRequest → S → Result String → S
    verify_body verify r s (ok body) = next_signed r s (verify (r.header "Mdm-Signature") body)
    verify_body verify r s (err e) = fail w 500 s

    -- CertExtractMdmSignatureMiddleware, of a verifier of the header and the body
    unfoldable pub cert_extract_mdm_signature_middleware :
        (String → String → Result (Option Certificate)) → Handler S
    unfolding verify_body next_signed
    cert_extract_mdm_signature_middleware verify r s =
        if r.header "Mdm-Signature" == "" then next r s else verify_body verify r s r.body

    unfoldable pub next_verified : HttpRequest → Result (Unit {0}) × S → S
    next_verified r (ok _, s) = next r s
    next_verified r (err e, s) = fail w 400 s

    -- CertVerifyMiddleware
    unfoldable pub cert_verify_middleware : (Option Certificate → Exec S Unit) → Handler S
    unfolding next_verified
    cert_verify_middleware verify r s = next_verified r (verify r.certificate s)

    -- `http.Error(w, http.StatusText(http.StatusUnauthorized), http.StatusBadRequest)`
    unfoldable unauthorized : S → S
    unauthorized = w.error (w.status_text 401) 400

    unfoldable next_identified : Bool → HttpRequest → Result String × S → S
    unfolding unauthorized
    next_identified enforce r (ok id, s) =
        if id == ""
        then if enforce then unauthorized s else next r s
        else next (record r { enrollment_id = id }) s
    next_identified enforce r (err e, s) = fail w 500 s

    unfoldable look_up :
        (Certificate → String)
        → (String → Exec S String)
        → Bool
        → HttpRequest
        → Option Certificate
        → S
        → S
    unfolding next_identified unauthorized
    look_up hash from_hash enforce r none s = if enforce then unauthorized s else next r s
    look_up hash from_hash enforce r (some c) s = next_identified enforce r (from_hash (hash c) s)

    -- CertWithEnrollmentIDMiddleware, of HashCert and EnrollmentFromHash
    unfoldable pub cert_with_enrollment_id_middleware :
        (Certificate → String) → (String → Exec S String) → Bool → Handler S
    unfolding look_up
    cert_with_enrollment_id_middleware hash from_hash enforce r s =
        look_up hash from_hash enforce r r.certificate s
