-- ===== src/Service/Webhook/Told.antt =====
-- What a webhook (service/webhook) is told that runs behind the main service in the dispatcher of
-- service/multi.
use nanomdm.Common.{String, ◌≡◌, refl, ap, ◌∙◌, Option, none, some, [], ◌∷◌}
use nanomdm.Common.Fault.{Result, ok, err}
use nanomdm.Common.Exec.{Exec, beside, follow}
use nanomdm.Mdm.Enroll.{Enrollment, EnrollId, Request}
use nanomdm.Mdm.Checkin.{CheckOut}
use nanomdm.Service.Nano
use nanomdm.Service.Nano.{Nano, nano, setup_request}
use nanomdm.Service.Multi.{MultiService, multi, run_others, answer}
use nanomdm.Service.Webhook.{Webhook, webhook, checkin_event, send, send_checkin}

module _ {S A : Type 0} where
  -- a step that leaves the request as it is
  abbrev Keeps : Exec (Request × S) A → Type 0
  Keeps m = (r : Request) (s : S) → (m (r, s)).1.0 ≡ r

module _ {S A B : Type 0} where
  follow-request :
      (k : A → Exec (Request × S) B)
      → ((a : A) → Keeps (k a))
      → (res : Result A) (r : Request) (s : S) → (follow k (res, (r, s))).1.0 ≡ r
  follow-request k keeps (ok a) r s = keeps a r s
  follow-request k keeps (err e) r s = refl

module _ {S : Type 0} (n : Nano S) (w : Webhook S) where
  -- the dispatcher over the main service and a webhook
  abbrev pub both : MultiService S
  both = record { first = nano n; others = webhook w ∷ [] }

  -- a request with the ID that the main service gives it
  abbrev pub told : Request → EnrollId → Request
  told r eid = record r { enroll_id = some eid }

  send_checkin-run :
      (topic raw : String) (e : Enrollment) (eid : EnrollId) (r : Request) (s : S)
      → r.enroll_id ≡ some eid
      → (send_checkin w topic e raw (r, s)).1.1
        ≡ (send w (checkin_event w topic eid r e raw none s) s).1
  unfolding send_checkin
  send_checkin-run topic raw e eid r s set = rw set refl

  check_out-request :
      (m : CheckOut) (r : Request) (s : S)
      → (Nano.check_out n m (r, s)).1.0 ≡ record r { enroll_id = n.normalizer m.enrollment }
  unfolding Nano.check_out setup_request
  check_out-request m r s =
      follow-request (λ x. beside (n.store.disable x)) (λ x r s. refl)
        (setup_request n m.enrollment (r, s)).0 (record r { enroll_id = n.normalizer m.enrollment })
        s

  -- Behind the main service in the dispatcher, a webhook is sent the event of a CheckOut with the
  -- enrollment ID that the main service resolved, even where that refuses the message or its store
  -- fails; the answer is the main service's, whatever the webhook answers.
  pub check_out-told :
      (m : CheckOut) (eid : EnrollId) (r : Request) (s : S)
      → n.normalizer m.enrollment ≡ some eid
      → (multi both).check_out m (r, s) ≡ (
        (Nano.check_out n m (r, s)).0,
        (
          told r eid,
          (send w
              (checkin_event w "mdm.CheckOut" eid
                (told r eid)
                m.enrollment
                m.raw
                none
                (Nano.check_out n m (r, s)).1.1)
              (Nano.check_out n m (r, s)).1.1).1,
        ),
      )
  unfolding multi run_others answer
  check_out-told m eid r s resolved =
      let out = Nano.check_out n m (r, s) in
      let t = out.1.1 in
      let request : out.1.0 ≡ told r eid =
        check_out-request m r s
        ∙ ap (λ (o : Option EnrollId). record r { enroll_id = o }) resolved in
      ap
        (λ (q : Request).
          (out.0, (q, (send_checkin w "mdm.CheckOut" m.enrollment m.raw (q, t)).1.1)))
        request
      ∙ ap (λ (u : S). (out.0, (told r eid, u)))
          (send_checkin-run "mdm.CheckOut" m.raw m.enrollment eid (told r eid) t refl)
