-- ===== src/CertAuth/Safety.antt =====
-- What a request that certauth.go lets through has established, and which requests it never does.
use nanomdm.Common.{
  String, ◌≡◌, refl, ◌∙◌, sym, Bool, true, false, Option, none, some, arith, Bool-cases, inl, inr,
}
use nanomdm.Common.Fault.{Error, Result, ok, err, wrap, missing_cert, no_cert_reuse, no_cert_assoc}
use nanomdm.Common.Exec.{Exec}
use nanomdm.Mdm.Enroll.{Enrollment, EnrollId, Request, Certificate, validate}
use nanomdm.Mdm.Checkin.{
  TokenUpdate, CheckOut, UserAuthenticate, SetBootstrapToken, GetBootstrapToken,
  DeclarativeManagement, GetToken,
}
use nanomdm.Mdm.Command.{CommandResults}
use nanomdm.CertAuth.{
  CertAuth, normalize, validate_or_associate_for_existing_enrollment,
  validate_associate_existing_enrollment, guarded, cert_auth,
}
use nanomdm.CertAuth.Policy.{
  Associations, IsFaithful, enact, existing_verdict, in_context,
  validate_or_associate_for_existing_enrollment-verdict,
}

-- a call that fails and changes nothing
abbrev pub Refuses : {S A : Type 0} → Exec S A → S → Error → Type 0
Refuses m s x = m s ≡ (err x, s)

module _ {S : Type 0} (a : CertAuth S) (m : Associations S) (f : IsFaithful a.storage m) where
  accepted_linked :
      (retro warn bound seen : Bool) (id hash text : String) (r r' : Request) (s s' : S)
      → warn ≡ false
      → in_context text r
          (enact m id hash (existing_verdict retro warn (m.linked s id hash) bound seen) s)
        ≡ (ok tt, (r', s'))
      → m.linked s' id hash ≡ true
  accepted_linked retro warn bound seen id hash text r r' s s' w h =
      ground (arith, f.linked-link id hash s)

  no_cert :
      (e : Enrollment) (r : Request) (s : S)
      → r.certificate ≡ none
      → validate_or_associate_for_existing_enrollment a e (r, s)
        ≡ (err (wrap "cert auth: existing enrollment" missing_cert), (r, s))
  unfolding validate_or_associate_for_existing_enrollment validate_associate_existing_enrollment
      guarded
  no_cert e r s c = rw c refl

  invalid_id :
      (e : Enrollment) (r : Request) (cert : Certificate) (x : Error) (s : S)
      → r.certificate ≡ some cert
      → validate (normalize e) ≡ err x
      → validate_or_associate_for_existing_enrollment a e (r, s)
        ≡ (err (wrap "cert auth: existing enrollment" x), (r, s))
  unfolding validate_or_associate_for_existing_enrollment validate_associate_existing_enrollment
      guarded
  invalid_id e r cert x s c v = rw (c, v) refl

  -- Where the store of certificate associations never fails and keeps them faithfully (what was
  -- linked is read back as linked), and without `warnOnly`: when a message other than Authenticate passes the check, its request has a
  -- certificate, its device ID is valid, and the device's ID is linked to the hash of that
  -- certificate in the store from then on. The caller's request is not changed.
  pub validate_or_associate_for_existing_enrollment-links :
      (e : Enrollment) (r r' : Request) (s s' : S)
      → a.warn_only ≡ false
      → validate_or_associate_for_existing_enrollment a e (r, s) ≡ (ok tt, (r', s'))
      → (cert : Certificate) × (eid : EnrollId) × (r.certificate ≡ some cert)
        × (validate (normalize e) ≡ ok eid)
        × (m.linked s' eid.id (a.hash_cert cert) ≡ true)
  validate_or_associate_for_existing_enrollment-links e r r' s s' strict h =
      go r.certificate refl (validate (normalize e)) refl
    where
      go :
          (c : Option Certificate)
          → r.certificate ≡ c
          → (v : Result EnrollId) → validate (normalize e) ≡ v
          → (cert : Certificate) × (eid : EnrollId) × (r.certificate ≡ some cert)
            × (validate (normalize e) ≡ ok eid)
            × (m.linked s' eid.id (a.hash_cert cert) ≡ true)
      go none p v q = cc (no_cert e r s p)
      go (some cert) p (err x) q = cc (invalid_id e r cert x s p q)
      go (some cert) p (ok eid) q = (
        cert,
        eid,
        p,
        q,
        accepted_linked a.allow_retroactive a.warn_only (m.bound s eid.id)
            (m.seen s (a.hash_cert cert)) eid.id (a.hash_cert cert) _ r r' s s' strict
            (sym (validate_or_associate_for_existing_enrollment-verdict a m f e r cert eid s p q)
              ∙ h),
      )

  refused_existing :
      (r : Request) (cert : Certificate) (eid : EnrollId) (e : Enrollment) (s : S)
      → a.warn_only ≡ false
      → r.certificate ≡ some cert
      → validate (normalize e) ≡ ok eid
      → m.bound s eid.id ≡ true
      → m.linked s eid.id (a.hash_cert cert) ≡ false
      → (x : Error) × (validate_or_associate_for_existing_enrollment a e (r, s) ≡ (err x, (r, s)))
  refused_existing r cert eid e s strict c v bound other =
      let by = validate_or_associate_for_existing_enrollment-verdict a m f e r cert eid s c v in
      elim (Bool-cases a.allow_retroactive) [
        | inl t ↦ (wrap "cert auth: existing enrollment" no_cert_reuse, ground (arith, by))
        | inr n ↦ (wrap "cert auth: existing enrollment" no_cert_assoc, ground (arith, by))
      ]

  -- Under the same conditions: a request for an enrollment that has a certificate hash, made with a
  -- certificate that is not linked to it, is refused by the eight methods other than Authenticate.
  -- The next service is not called, and neither the store nor the request changes.
  pub cert_auth_other_cert :
      (r : Request) (cert : Certificate) (eid : EnrollId) (e : Enrollment) (s : S)
      → a.warn_only ≡ false
      → r.certificate ≡ some cert
      → validate (normalize e) ≡ ok eid
      → m.bound s eid.id ≡ true
      → m.linked s eid.id (a.hash_cert cert) ≡ false
      → (x : Error) × ((t : TokenUpdate)
          → t.enrollment ≡ e
          → Refuses ((cert_auth a).token_update t) (r, s) x)
        × ((t : CheckOut) → t.enrollment ≡ e → Refuses ((cert_auth a).check_out t) (r, s) x)
        × ((t : UserAuthenticate)
            → t.enrollment ≡ e
            → Refuses ((cert_auth a).user_authenticate t) (r, s) x)
        × ((t : SetBootstrapToken)
            → t.enrollment ≡ e
            → Refuses ((cert_auth a).set_bootstrap_token t) (r, s) x)
        × ((t : GetBootstrapToken)
            → t.enrollment ≡ e
            → Refuses ((cert_auth a).get_bootstrap_token t) (r, s) x)
        × ((t : DeclarativeManagement)
            → t.enrollment ≡ e
            → Refuses ((cert_auth a).declarative_management t) (r, s) x)
        × ((t : GetToken) → t.enrollment ≡ e → Refuses ((cert_auth a).get_token t) (r, s) x)
        × ((t : CommandResults)
            → t.enrollment ≡ e
            → Refuses ((cert_auth a).command_and_report_results t) (r, s) x)
  unfolding cert_auth
  cert_auth_other_cert r cert eid e s strict c v bound other =
      let (x, failed) = refused_existing r cert eid e s strict c v bound other in
      (
        x,
        (λ t same. rw (same, failed) refl),
        (λ t same. rw (same, failed) refl),
        (λ t same. rw (same, failed) refl),
        (λ t same. rw (same, failed) refl),
        (λ t same. rw (same, failed) refl),
        (λ t same. rw (same, failed) refl),
        (λ t same. rw (same, failed) refl),
        (λ t same. rw (same, failed) refl),
      )
