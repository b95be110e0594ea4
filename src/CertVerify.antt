-- ===== src/CertVerify.antt =====
-- certverify/: the verifiers of certificates, pool.go, signature.go and fallback.go, and what they and
-- others take of cryptoutil/cryptoutil.go. crypto/x509, base64 and PKCS #7 are parameters. A verifier
-- stands for its answers during one request, at which context and clock are fixed.
pub mod Fallback
mod Tests
use Prim.Native.String.{slice, len}
use nanomdm.Common.{
  ℕ, suc, String, Bool, true, false, ◌&&◌, Option, none, some, List, [], ◌∷◌, ◌++◌, ◌==◌, ◌^^◌, eqb,
  if◌then◌else◌,
}
use nanomdm.Common.Fault.{Error, Result, ok, err, fault, ◌>>=◌}
use nanomdm.Common.Decimal.{itoa}
use nanomdm.Mdm.Enroll.{Certificate}

-- CertVerifier
abbrev pub CertVerifier : Type 0
CertVerifier = Option Certificate → Result (Unit {0})

missing : Error
missing = fault "missing MDM certificate"

module _ (chain : Certificate → Result (Unit {0})) where
  -- PoolVerifier.Verify, where `chain` is cert.Verify with the pools
  unfoldable pub pool_verify : CertVerifier
  unfolding missing
  pool_verify none = err missing
  pool_verify (some cert) = elim (chain cert) [ ok u ↦ ok tt | err e ↦ err e ]

module _ (check_signature : Certificate → Certificate → Result (Unit {0})) (ca : Certificate) where
  -- SignatureVerifier.Verify
  unfoldable pub signature_verify : CertVerifier
  unfolding missing
  signature_verify none = err missing
  signature_verify (some cert) = check_signature cert ca

-- strings.Join
abbrev pub join_text : String → List String → String
join_text sep [] = ""
join_text sep (x ∷ []) = x
join_text sep (x ∷ y ∷ r) = x ^^ (sep ^^ join_text sep (y ∷ r))

-- `error_text` is the Error method.
module _ (error_text : Error → String) (cert : Option Certificate) where
  -- the loop of FallbackVerifier.Verify, from the verifier of a number and the errors so far
  unfoldable pub fallback_from : ℕ → List CertVerifier → List String → Result (Unit {0})
  fallback_from i [] errs = err (fault (join_text "; " errs))
  fallback_from i (v ∷ vs) errs = elim (v cert) [
    | ok u ↦ ok tt
    | err e ↦
        fallback_from (suc i) vs
          (errs ++ (("fallback error (" ^^ (itoa i ^^ ("): " ^^ error_text e))) ∷ []))
  ]

  -- FallbackVerifier.Verify
  unfoldable pub fallback_verify : List CertVerifier → Result (Unit {0})
  unfolding fallback_from
  fallback_verify vs = fallback_from 0 vs []

-- pkix.AttributeTypeAndValue; the value is `none` where it is no string
pub record Attribute : Type 0 where
  pub type : List ℕ
  pub value : Option String

oid_equal : List ℕ → List ℕ → Bool
oid_equal [] [] = true
oid_equal [] (y ∷ ys) = false
oid_equal (x ∷ xs) [] = false
oid_equal (x ∷ xs) (y ∷ ys) = eqb x y && oid_equal xs ys

-- oidUID
abbrev pub oid_uid : List ℕ
oid_uid = 0 ∷ 9 ∷ 2342 ∷ 19200300 ∷ 100 ∷ 1 ∷ 1 ∷ []

-- `quote` is the format %q.
module _ (quote : String → String) where
  topic_of_value : Option String → Result String
  topic_of_value none = err (fault ("invalid APNs Topic: " ^^ quote ""))
  topic_of_value (some user_id) =
      let prefix : String = "com.apple.mgmt" in
      if slice user_id 0 (len prefix) == prefix
      then ok user_id
      else err (fault ("invalid APNs Topic: " ^^ quote user_id))

  -- TopicFromCert, of the certificate's Subject.Names
  unfoldable pub topic_from_cert : List Attribute → Result String
  unfolding topic_of_value oid_equal
  topic_from_cert [] = err (fault "no APNs Topic found")
  topic_from_cert (v ∷ vs) =
      let rest = topic_from_cert vs in
      if oid_equal v.type oid_uid then topic_of_value v.value else rest

  -- TopicFromPEMCert
  unfoldable pub topic_from_pem_cert :
      (String → Result Certificate) → (Certificate → List Attribute) → String → Result String
  topic_from_pem_cert decode names pem = decode pem >>= λ cert. topic_from_cert (names cert)

-- What VerifyMdmSignature calls of encoding/base64 and pkcs7; `verify` is Verify of the parsed message
-- with a content, `only_signer` GetOnlySigner.
pub record Pkcs7 : Type 1 where
  pub Message : Type 0
  pub base64 : String → Result String
  pub parse : String → Result Message
  pub verify : Message → String → Result (Unit {0})
  pub only_signer : Message → Option Certificate

signer : Option Certificate → Result Certificate
signer none = err (fault "invalid or missing signer")
signer (some cert) = ok cert

-- VerifyMdmSignature
unfoldable pub verify_mdm_signature : Pkcs7 → String → String → Result Certificate
unfolding signer
verify_mdm_signature p header body = p.base64 header >>= λ sig.
    p.parse sig >>= λ m. p.verify m body >>= λ u. signer (p.only_signer m)
