-- ===== src/CertAuth.antt =====
-- service/certauth/: the middleware that ties enrollments to the certificates of their requests.
-- certauth.go is the association and its checks, service.go the methods that run them first.
pub mod Policy
pub mod Safety
pub mod Gate
pub mod Tests
use nanomdm.Common.{String, Bool, not, ◌&&◌, Option, none, some, ◌==◌, if◌then◌else◌}
use nanomdm.Common.Fault.{Result, ok, err, wrap, missing_cert, no_cert_reuse, no_cert_assoc}
use nanomdm.Common.Exec.{Exec, pure, raise, lift, map_error, ◌>>=◌, ◌>>◌}
use nanomdm.Mdm.Enroll.{
  Enrollment, EnrollId, Request, Enrolled, Certificate, resolved, ResolvedEnrollment, validate,
}
use nanomdm.Service.{CheckinAndCommandService, CertAuthStore}

device_id : ResolvedEnrollment → EnrollId
device_id r = record { type = r.type; id = r.device_channel_id; parent_id = "" }

device_id_of : Option ResolvedEnrollment → Option EnrollId
device_id_of none = none
device_id_of (some r) = some (device_id r)

-- normalize: the device channel's ID, whatever the enrollment
unfoldable pub normalize : Enrollment → Option EnrollId
unfolding device_id device_id_of resolved
normalize e = device_id_of (resolved e)

-- The struct `CertAuth`. `hash_cert` is `HashCert`, the hex form of a SHA-256 digest.
pub record CertAuth (S : Type 0) : Type 0 where
  pub next : CheckinAndCommandService S
  pub storage : CertAuthStore S
  pub hash_cert : Certificate → String
  pub allow_dup : Bool
  pub allow_retroactive : Bool
  pub warn_only : Bool

module _ {S : Type 0} (a : CertAuth S) where
  -- what follows `hash := HashCert(r.Certificate)` in `associateNewEnrollment`
  unfoldable pub associate_new : Enrolled → String → Exec S Unit
  associate_new r hash = do
    has_hash ← a.storage.has_cert_hash r hash
    if has_hash && not a.allow_dup
        then (do
          is_assoc ← a.storage.is_cert_hash_associated r hash
          if is_assoc
              then pure tt
              else if not a.warn_only
              then raise no_cert_reuse
              else a.storage.associate_cert_hash r hash)
        else a.storage.associate_cert_hash r hash

  -- what follows it in `validateAssociateExistingEnrollment`, each check with the rest behind it
  unfoldable pub associate_existing : Enrolled → String → Exec S Unit
  associate_existing r hash = if a.warn_only then pure tt else a.storage.associate_cert_hash r hash

  unfoldable pub check_cert_unseen : Enrolled → String → Exec S Unit
  check_cert_unseen r hash = do
    has_hash ← a.storage.has_cert_hash r hash
    if has_hash && not a.warn_only then raise no_cert_reuse else associate_existing r hash

  unfoldable pub check_enrollment_unbound : Enrolled → String → Exec S Unit
  check_enrollment_unbound r hash = do
    has_hash ← a.storage.enrollment_has_cert_hash r hash
    if has_hash && not a.warn_only then raise no_cert_reuse else check_cert_unseen r hash

  unfoldable pub validate_existing : Enrolled → String → Exec S Unit
  validate_existing r hash = do
    is_assoc ← a.storage.is_cert_hash_associated r hash
    if is_assoc
        then pure tt
        else if not a.allow_retroactive && not a.warn_only
        then raise no_cert_assoc
        else check_enrollment_unbound r hash

  -- The two guards at the head of both functions: the certificate, then the enrollment ID.
  unfoldable pub guarded : (Enrolled → String → Exec S Unit) → Request → Exec S Unit
  guarded body r = elim r.certificate [
    | none ↦ raise missing_cert
    | some cert ↦ (do
      eid ← lift (validate r.enroll_id)
      body (record { enroll_id = eid; certificate = some cert }) (a.hash_cert cert))
  ]

  -- associateNewEnrollment
  unfoldable pub associate_new_enrollment : Request → Exec S Unit
  associate_new_enrollment r = guarded associate_new r

  -- validateAssociateExistingEnrollment
  unfoldable pub validate_associate_existing_enrollment : Request → Exec S Unit
  validate_associate_existing_enrollment r = guarded validate_existing r

  -- `req := r.WithContext(…); req.EnrollID = s.normalizer(e)`: the check runs on a copy
  on_copy : (Request → Exec S Unit) → Enrollment → Exec (Request × S) Unit
  on_copy check e (r, s) =
      let (res, s') = check (record r { enroll_id = normalize e }) s in (res, (r, s'))

  -- associateForNewEnrollment
  unfoldable pub associate_for_new_enrollment : Enrollment → Exec (Request × S) Unit
  unfolding on_copy
  associate_for_new_enrollment e =
      map_error (wrap "cert auth: new enrollment") (on_copy associate_new_enrollment e)

  -- validateOrAssociateForExistingEnrollment
  unfoldable pub validate_or_associate_for_existing_enrollment :
      Enrollment → Exec (Request × S) Unit
  unfolding on_copy
  validate_or_associate_for_existing_enrollment e =
      map_error (wrap "cert auth: existing enrollment")
        (on_copy validate_associate_existing_enrollment e)

  -- the methods of service.go
  unfoldable pub cert_auth : CheckinAndCommandService S
  cert_auth =
      let check = validate_or_associate_for_existing_enrollment in
      record {
        authenticate = λ m. associate_for_new_enrollment m.enrollment >> a.next.authenticate m;
        token_update = λ m. check m.enrollment >> a.next.token_update m;
        check_out = λ m. check m.enrollment >> a.next.check_out m;
        user_authenticate = λ m. check m.enrollment >> a.next.user_authenticate m;
        set_bootstrap_token = λ m. check m.enrollment >> a.next.set_bootstrap_token m;
        get_bootstrap_token = λ m. check m.enrollment >> a.next.get_bootstrap_token m;
        declarative_management = λ m. check m.enrollment >> a.next.declarative_management m;
        get_token = λ m. check m.enrollment >> a.next.get_token m;
        command_and_report_results = λ m. check m.enrollment >> a.next.command_and_report_results m;
      }
