-- ===== src/Server/OtherCert.antt =====
-- What the service of cmd/nanomdm/main.go refuses, whatever it is made of.
use nanomdm.Common.{String, ◌≡◌, refl, ◌∙◌, true, false, some}
use nanomdm.Common.Fault.{Error, Result, ok, err, wrap}
use nanomdm.Mdm.Enroll.{Enrollment, EnrollId, Request, Certificate, validate}
use nanomdm.Mdm.Checkin
use nanomdm.Mdm.Checkin.{Plist, decode_checkin, validate_get_token}
use nanomdm.Mdm.Command.{CommandResults, decode_command_results}
use nanomdm.Service.{CheckinAndCommandService}
use nanomdm.Service.Dispatch.{
  Marshal, dispatch, dispatch_decoded, checkin_request, report_decoded,
  command_and_report_results_request,
}
use nanomdm.Service.Dump.{Written}
use nanomdm.Service.Dump.Laws.{without_log}
use nanomdm.CertAuth.{CertAuth, normalize, cert_auth}
use nanomdm.CertAuth.Policy.{Associations, IsFaithful}
use nanomdm.CertAuth.Safety.{Refuses, cert_auth_other_cert}
use nanomdm.Server.Silent.{mdm_service-checkin, mdm_service-report}
use nanomdm.Server.{Flags, Parts, mdm_service, with_cert_auth}

-- the message is not Authenticate, and of the enrollment
abbrev pub From : Enrollment → Checkin.Checkin → Type 0
From e (Checkin.authenticate m) = ⊥
From e (Checkin.token_update m) = m.enrollment ≡ e
From e (Checkin.check_out m) = m.enrollment ≡ e
From e (Checkin.user_authenticate m) = m.enrollment ≡ e
From e (Checkin.set_bootstrap_token m) = m.enrollment ≡ e
From e (Checkin.get_bootstrap_token m) = m.enrollment ≡ e
From e (Checkin.declarative_management m) = m.enrollment ≡ e
From e (Checkin.get_token m) = m.enrollment ≡ e

module _ {S : Type 0} (a : CertAuth S) (assoc : Associations S) (fa : IsFaithful a.storage assoc)
    (q : Request) (cert : Certificate) (eid : EnrollId) (e : Enrollment) (s : S)
    (strict : a.warn_only ≡ false) (c : q.certificate ≡ some cert)
    (v : validate (normalize e) ≡ ok eid) (bound : assoc.bound s eid.id ≡ true)
    (other : assoc.linked s eid.id (a.hash_cert cert) ≡ false) (ms : Marshal) where
  dispatch-Refuses :
      (m : Checkin.Checkin)
      → From e m
      → (x : Error) × Refuses (dispatch (cert_auth a) ms m) (q, s) x
  unfolding dispatch
  dispatch-Refuses m from =
      let (x, tu, co, ua, sb, gb, dm, gt, cr) =
        cert_auth_other_cert a assoc fa q cert eid e s strict c v bound other in
      elim m as (λ m. From e m → (x : Error) × Refuses (dispatch (cert_auth a) ms m) (q, s) x) [
        | Checkin.authenticate m ↦ λ h. absurd h
        | Checkin.token_update m ↦ λ h. (wrap "tokenupdate service" x, rw (tu m h) refl)
        | Checkin.check_out m ↦ λ h. (wrap "checkout service" x, rw (co m h) refl)
        | Checkin.user_authenticate m ↦ λ h. (x, rw (ua m h) refl)
        | Checkin.set_bootstrap_token m ↦
            λ h. (wrap "setbootstraptoken service" x, rw (sb m h) refl)
        | Checkin.get_bootstrap_token m ↦
            λ h. (wrap "getbootstraptoken service" x, rw (gb m h) refl)
        | Checkin.declarative_management m ↦
            λ h. (wrap "declarativemanagement service" x, rw (dm m h) refl)
        | Checkin.get_token m ↦ λ h. validated x m (gt m h) (validate_get_token (some m)) refl
      ]
        from
    where
      validated :
          (x : Error) (m : Checkin.GetToken)
          → Refuses ((cert_auth a).get_token m) (q, s) x
          → (r : Result (Unit {0})) → validate_get_token (some m) ≡ r
          → (y : Error) × Refuses (dispatch (cert_auth a) ms (Checkin.get_token m)) (q, s) y
      validated x m h (ok u) d = (wrap "gettoken service" x, rw (d, h) refl)
      validated x m h (err y) d = (wrap "gettoken validate" y, rw d refl)

  checkin-Refuses :
      (p : Plist) (body : String) (m : Checkin.Checkin)
      → decode_checkin p body ≡ ok m
      → From e m
      → (x : Error) × Refuses (checkin_request (cert_auth a) ms p body) (q, s) x
  unfolding checkin_request dispatch_decoded
  checkin-Refuses p body m d from = let (x, h) = dispatch-Refuses m from in (x, rw d h)

  report-Refuses :
      (unmarshal : String → Result CommandResults) (body : String) (m : CommandResults)
      → decode_command_results unmarshal body ≡ ok m
      → m.enrollment ≡ e
      → (x : Error) × Refuses
          (command_and_report_results_request (cert_auth a) unmarshal body)
          (q, s)
          x
  unfolding command_and_report_results_request report_decoded
  report-Refuses unmarshal body m d h =
      let all = cert_auth_other_cert a assoc fa q cert eid e s strict c v bound other in
      (wrap "command and report results service" all.0, rw (d, all.8 m h) refl)

module _ {S : Type 0} (p : Parts S) (f : Flags) (svc : CheckinAndCommandService S)
    (assoc : Associations S) (fa : IsFaithful p.cert_store assoc) (q : Request) (cert : Certificate)
    (eid : EnrollId) (e : Enrollment) (log : Written) (s : S) where
  -- Where the store keeps certificate associations faithfully, and whatever the flags are: a check-in
  -- message other than Authenticate, and a command report, of an enrollment that has a certificate hash,
  -- with a certificate that is not linked to it, are answered with an error by the service that the
  -- server puts together, and the request and the stores stay as they were.
  pub mdm_service_other_cert :
      (body : String) (m : Checkin.Checkin) (result : String) (report : CommandResults)
      → q.certificate ≡ some cert
      → validate (normalize e) ≡ ok eid
      → assoc.bound s eid.id ≡ true
      → assoc.linked s eid.id (p.hash_cert cert) ≡ false
      → decode_checkin p.plist body ≡ ok m
      → From e m
      → decode_command_results p.unmarshal result ≡ ok report
      → report.enrollment ≡ e
      → ((x : Error) × (without_log
              (checkin_request (mdm_service p f svc) p.marshal p.plist body (q, (log, s)))
            ≡ (err x, (q, s))))
        × ((x : Error) × (without_log (
                command_and_report_results_request
                  (mdm_service p f svc)
                  p.unmarshal
                  result
                  (q, (log, s)))
              ≡ (err x, (q, s))))
  mdm_service_other_cert body m result report c v bound other d from d' same =
      let a = with_cert_auth p f svc in
      let (x, h) =
        checkin-Refuses a assoc fa q cert eid e s refl c v bound other p.marshal p.plist body m d
          from in
      let (y, k) =
        report-Refuses a assoc fa q cert eid e s refl c v bound other p.marshal p.unmarshal result
          report d' same in
      (
        (x, mdm_service-checkin p f svc body q log s ∙ h),
        (y, mdm_service-report p f svc result report q log s d' ∙ k),
      )
