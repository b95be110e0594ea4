-- ===== src/CertAuth/Policy.antt =====
-- The policy that certauth.go decides by, as a table, and what it guarantees.

use nanomdm.Common.{String, ◌≡◌, Bool, true, false, ◌||◌, some, arith, if◌then◌else◌}
use nanomdm.Common.Fault.{Error, Result, ok, err, wrap, no_cert_reuse, no_cert_assoc}
use nanomdm.Mdm.Enroll.{Enrollment, EnrollId, Request, Enrolled, Certificate, validate}
use nanomdm.Service.{CertAuthStore}
use nanomdm.CertAuth.{
  CertAuth, normalize, associate_new, associate_existing, check_cert_unseen,
  check_enrollment_unbound, validate_existing, guarded, associate_new_enrollment,
  validate_associate_existing_enrollment, associate_for_new_enrollment,
  validate_or_associate_for_existing_enrollment,
}

-- What a store of associations is relied on for, one whose calls never fail: `seen` is whether a hash was ever associated,
-- `bound` whether an enrollment has a hash, `linked` whether it has this one.
pub record Associations (S : Type 0) : Type 0 where
  pub seen : S → String → Bool
  pub bound : S → String → Bool
  pub linked : S → String → String → Bool
  pub link : String → String → S → S

pub record IsFaithful {S : Type 0} (st : CertAuthStore S) (m : Associations S) : Type 0 where
  pub has-eq : (r : Enrolled) (h : String) (s : S) → st.has_cert_hash r h s ≡ (ok (m.seen s h), s)
  pub bound-eq :
      (r : Enrolled) (h : String) (s : S)
      → st.enrollment_has_cert_hash r h s ≡ (ok (m.bound s r.id), s)
  pub linked-eq :
      (r : Enrolled) (h : String) (s : S)
      → st.is_cert_hash_associated r h s ≡ (ok (m.linked s r.id h), s)
  pub associate-eq :
      (r : Enrolled) (h : String) (s : S) → st.associate_cert_hash r h s ≡ (ok tt, m.link r.id h s)
  pub linked-link : (i h : String) (s : S) → m.linked (m.link i h s) i h ≡ true
  pub seen-link : (i h : String) (s : S) → m.seen (m.link i h s) h ≡ true

pub data Verdict : Type 0 where
  accept associate : Verdict
  reject : Error → Verdict

-- An Authenticate message, by whether the hash was seen and is the enrollment's own.
abbrev pub new_verdict : (allow_dup warn_only seen linked : Bool) → Verdict
new_verdict true warn seen linked = associate
new_verdict false warn false linked = associate
new_verdict false warn true true = accept
new_verdict false true true false = associate
new_verdict false false true false = reject no_cert_reuse

-- Any other message.
abbrev pub existing_verdict : (retroactive warn_only linked bound seen : Bool) → Verdict
existing_verdict retro warn true bound seen = accept
existing_verdict retro true false bound seen = accept
existing_verdict false false false bound seen = reject no_cert_assoc
existing_verdict true false false true seen = reject no_cert_reuse
existing_verdict true false false false true = reject no_cert_reuse
existing_verdict true false false false false = associate

module _ {S : Type 0} where
  -- what a verdict for an enrollment and a hash makes of the store
  abbrev pub enact : Associations S → String → String → Verdict → S → Result (Unit {0}) × S
  enact m id hash accept s = (ok tt, s)
  enact m id hash associate s = (ok tt, m.link id hash s)
  enact m id hash (reject e) s = (err e, s)

module _ {S : Type 0} (a : CertAuth S) (m : Associations S) (f : IsFaithful a.storage m) where
  associate_new-verdict :
      (r : Enrolled) (hash : String) (s : S)
      → associate_new a r hash s
        ≡ enact m r.id hash
            (new_verdict a.allow_dup a.warn_only (m.seen s hash) (m.linked s r.id hash))
            s
  unfolding associate_new
  associate_new-verdict r hash s =
      ground (arith, f.has-eq r hash s, f.linked-eq r hash s, f.associate-eq r hash s)

  check_cert_unseen-verdict :
      (r : Enrolled) (hash : String) (s : S)
      → check_cert_unseen a r hash s
        ≡ enact m r.id hash
            (if a.warn_only
              then accept
              else if m.seen s hash
              then reject no_cert_reuse
              else associate)
            s
  unfolding check_cert_unseen associate_existing
  check_cert_unseen-verdict r hash s = ground (arith, f.has-eq r hash s, f.associate-eq r hash s)

  check_enrollment_unbound-verdict :
      (r : Enrolled) (hash : String) (s : S)
      → check_enrollment_unbound a r hash s
        ≡ enact m r.id hash
            (if a.warn_only
              then accept
              else if m.bound s r.id || m.seen s hash
              then reject no_cert_reuse
              else associate)
            s
  unfolding check_enrollment_unbound
  check_enrollment_unbound-verdict r hash s =
      ground (arith, f.bound-eq r hash s, check_cert_unseen-verdict r hash s)

  validate_existing-verdict :
      (r : Enrolled) (hash : String) (s : S)
      → validate_existing a r hash s
        ≡ enact m r.id hash
            (existing_verdict a.allow_retroactive a.warn_only
              (m.linked s r.id hash)
              (m.bound s r.id)
              (m.seen s hash))
            s
  unfolding validate_existing
  validate_existing-verdict r hash s =
      ground (arith, f.linked-eq r hash s, check_enrollment_unbound-verdict r hash s)

-- `fmt.Errorf(text + ": %w", err)` on an outcome, with the caller's request beside the store
abbrev pub in_context :
    {S : Type 0} → String → Request → Result (Unit {0}) × S → Result (Unit {0}) × (Request × S)
in_context text r (ok u, s) = (ok u, (r, s))
in_context text r (err e, s) = (err (wrap text e), (r, s))

module _ {S : Type 0} (a : CertAuth S) (m : Associations S) (f : IsFaithful a.storage m) where
  -- Where the store of certificate associations never fails and keeps them faithfully (what was
  -- linked is read back as linked): for a request with a certificate and a message whose device ID is valid, what the middleware
  -- does before an Authenticate message is what the table `new_verdict` says: the message is let
  -- through, let through with the device's ID linked to the certificate's hash, or refused with
  -- nothing changed. The caller's request is not changed.
  pub associate_for_new_enrollment-verdict :
      (e : Enrollment) (r : Request) (cert : Certificate) (eid : EnrollId) (s : S)
      → r.certificate ≡ some cert
      → validate (normalize e) ≡ ok eid
      → associate_for_new_enrollment a e (r, s)
        ≡ in_context "cert auth: new enrollment" r (
            enact m eid.id
              (a.hash_cert cert)
              (new_verdict a.allow_dup a.warn_only
                (m.seen s (a.hash_cert cert))
                (m.linked s eid.id (a.hash_cert cert)))
              s)
  unfolding associate_for_new_enrollment associate_new_enrollment guarded
  associate_for_new_enrollment-verdict e r cert eid s c v =
      let er : Enrolled = record { enroll_id = eid; certificate = some cert } in
      rw (c, v) (ground (arith, associate_new-verdict a m f er (a.hash_cert cert) s))

  -- Where the store of certificate associations never fails and keeps them faithfully (what was
  -- linked is read back as linked): for a request with a certificate and a message whose device ID is valid, what the middleware
  -- does before a message other than Authenticate is what the table `existing_verdict` says: the
  -- message is let through, let through with the device's ID linked to the certificate's hash, or
  -- refused with nothing changed. The caller's request is not changed.
  pub validate_or_associate_for_existing_enrollment-verdict :
      (e : Enrollment) (r : Request) (cert : Certificate) (eid : EnrollId) (s : S)
      → r.certificate ≡ some cert
      → validate (normalize e) ≡ ok eid
      → validate_or_associate_for_existing_enrollment a e (r, s)
        ≡ in_context "cert auth: existing enrollment" r (
            enact m eid.id
              (a.hash_cert cert)
              (existing_verdict a.allow_retroactive a.warn_only
                (m.linked s eid.id (a.hash_cert cert))
                (m.bound s eid.id)
                (m.seen s (a.hash_cert cert)))
              s)
  unfolding validate_or_associate_for_existing_enrollment validate_associate_existing_enrollment
      guarded
  validate_or_associate_for_existing_enrollment-verdict e r cert eid s c v =
      let er : Enrolled = record { enroll_id = eid; certificate = some cert } in
      rw (c, v) (ground (arith, validate_existing-verdict a m f er (a.hash_cert cert) s))
