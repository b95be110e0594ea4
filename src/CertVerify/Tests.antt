-- ===== src/CertVerify/Tests.antt =====
-- Verifiers in a row, and the topic of a certificate.
use nanomdm.Common.{String, ◌≡◌, ◌↔◌, refl, none, some, [], ◌∷◌, ◌==◌, if◌then◌else◌}
use nanomdm.Common.Fault.{Error, Result, ok, err, fault}
use nanomdm.Mdm.Enroll.{Certificate}
use nanomdm.CertVerify.{pool_verify, signature_verify, fallback_verify, topic_from_cert, oid_uid}
use nanomdm.CertVerify.Fallback.{Passes, fallback_verify-Passes}

abbrev error_text : Error → String
error_text e = "refused"

abbrev device : Certificate
device = record { raw = "device" }

abbrev chain : Certificate → Result (Unit {0})
chain cert = if cert.raw == "root" then ok tt else err (fault "unknown authority")

abbrev check_signature : Certificate → Certificate → Result (Unit {0})
check_signature cert ca = ok tt

fallback_iff :
    (fallback_verify error_text
        (some device)
        (pool_verify chain ∷ signature_verify check_signature device ∷ [])
      ≡ ok tt)
    ↔ Passes (some device) (pool_verify chain ∷ signature_verify check_signature device ∷ [])
fallback_iff =
    fallback_verify-Passes error_text (some device)
      (pool_verify chain ∷ signature_verify check_signature device ∷ [])

no_certificate :
    fallback_verify error_text none
      (pool_verify chain ∷ signature_verify check_signature device ∷ [])
    ≡ err (fault "fallback error (0): refused; fallback error (1): refused")
unfolding fallback_verify pool_verify signature_verify
no_certificate = refl

topic :
    topic_from_cert
      (λ text. text)
      (record { type = oid_uid; value = some "com.apple.mgmt.External.a" } ∷ [])
    ≡ ok "com.apple.mgmt.External.a"
unfolding topic_from_cert
topic = refl
