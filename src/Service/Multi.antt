-- ===== src/Service/Multi.antt =====
-- service/multi/multi.go: the dispatcher that answers by its first service and then runs the others
-- in goroutines of their own. A call of a service is taken as one step, and `others` stands in the
-- order in which the goroutines run. Logging is left out.
use nanomdm.Common.{List, [], ◌∷◌}
use nanomdm.Common.Exec.{Exec, pure, ◌>>◌}
use nanomdm.Mdm.Enroll.{Request}
use nanomdm.Service.{CheckinAndCommandService}

-- The struct `MultiService`: `svcs[0]` and `svcs[1:]`.
pub record MultiService (S : Type 0) : Type 0 where
  pub first : CheckinAndCommandService S
  pub others : List (CheckinAndCommandService S)

module _ {S : Type 0} where
  -- runOthers: every service is called, whatever the ones before it return. They share one clone of
  -- the request.
  unfoldable pub run_others :
      (CheckinAndCommandService S → Exec (Request × S) Unit)
      → List (CheckinAndCommandService S)
      → Request × S
      → S
  run_others r [] rc = rc.1
  run_others r (svc ∷ svcs) rc = run_others r svcs (r svc rc).1

  -- the outcome of the first service; the clone is made of the request that it leaves
  unfoldable pub answer :
      {A : Type 0} → Exec (Request × S) A → (Request × S → S) → Exec (Request × S) A
  answer call rest rs = let (res, after) = call rs in (res, (after.0, rest after))

module _ {S : Type 0} (ms : MultiService S) where
  unfoldable pub multi : CheckinAndCommandService S
  unfolding answer
  multi = record {
    authenticate =
        λ m. answer (ms.first.authenticate m) (run_others (λ svc. svc.authenticate m) ms.others);
    token_update =
        λ m. answer (ms.first.token_update m) (run_others (λ svc. svc.token_update m) ms.others);
    check_out = λ m. answer (ms.first.check_out m) (run_others (λ svc. svc.check_out m) ms.others);
    user_authenticate = λ m.
        answer (ms.first.user_authenticate m)
          (run_others (λ svc. svc.user_authenticate m >> pure tt) ms.others);
    set_bootstrap_token = λ m.
        answer (ms.first.set_bootstrap_token m)
          (run_others (λ svc. svc.set_bootstrap_token m) ms.others);
    get_bootstrap_token = λ m.
        answer (ms.first.get_bootstrap_token m)
          (run_others (λ svc. svc.get_bootstrap_token m >> pure tt) ms.others);
    declarative_management = λ m.
        answer (ms.first.declarative_management m)
          (run_others (λ svc. svc.declarative_management m >> pure tt) ms.others);
    get_token = λ m.
        answer (ms.first.get_token m) (run_others (λ svc. svc.get_token m >> pure tt) ms.others);
    command_and_report_results = λ m.
        answer (ms.first.command_and_report_results m)
          (run_others (λ svc. svc.command_and_report_results m >> pure tt) ms.others);
  }
