-- ===== src/Service.antt =====
-- service/service.go: the interfaces that the services and the middleware share. A method gets a
-- pointer to the request, which it may change, so the request is part of the state that it
-- runs on. `Nano` is service/nanomdm, `Dispatch` service/request.go, `Multi` service/multi/multi.go,
-- `Webhook` service/webhook.
pub mod Nano
pub mod Dispatch
pub mod Multi
pub mod Webhook
pub mod Dump
pub mod DmHook
use nanomdm.Common.{String, Bool, Option}
use nanomdm.Common.Exec.{Exec}
use nanomdm.Mdm.Enroll.{Request, Enrolled}
use nanomdm.Mdm.Checkin.{
  Authenticate, TokenUpdate, CheckOut, UserAuthenticate, BootstrapToken, SetBootstrapToken,
  GetBootstrapToken, DeclarativeManagement, GetTokenResponse, GetToken,
}
use nanomdm.Mdm.Command.{Command, CommandResults}

-- A nil slice, pointer or response is `none`.
abbrev pub Method : Type 0 → Type 0 → Type 0 → Type 0
Method S M A = M → Exec (Request × S) A

-- CheckinAndCommandService
pub record CheckinAndCommandService (S : Type 0) : Type 0 where
  pub authenticate : Method S Authenticate Unit
  pub token_update : Method S TokenUpdate Unit
  pub check_out : Method S CheckOut Unit
  pub user_authenticate : Method S UserAuthenticate (Option String)
  pub set_bootstrap_token : Method S SetBootstrapToken Unit
  pub get_bootstrap_token : Method S GetBootstrapToken (Option BootstrapToken)
  pub declarative_management : Method S DeclarativeManagement (Option String)
  pub get_token : Method S GetToken (Option GetTokenResponse)
  pub command_and_report_results : Method S CommandResults (Option Command)

-- storage.CertAuthStore (storage/certauth.go)
pub record CertAuthStore (S : Type 0) : Type 0 where
  pub has_cert_hash : Enrolled → String → Exec S Bool
  pub enrollment_has_cert_hash : Enrolled → String → Exec S Bool
  pub is_cert_hash_associated : Enrolled → String → Exec S Bool
  pub associate_cert_hash : Enrolled → String → Exec S Unit

-- storage.ServiceStore (storage/storage.go), of CheckinStore, CommandAndReportResultsStore and
-- BootstrapTokenStore. What the loops of a store need as fuel is the store's matter.
pub record ServiceStore (S : Type 0) : Type 0 where
  pub store_authenticate : Enrolled → Authenticate → Exec S Unit
  pub store_token_update : Enrolled → TokenUpdate → Exec S Unit
  pub disable : Enrolled → Exec S Unit
  pub store_user_authenticate : Enrolled → UserAuthenticate → Exec S Unit
  pub store_command_report : Enrolled → CommandResults → Exec S Unit
  pub retrieve_next_command : Enrolled → Bool → Exec S (Option Command)
  pub clear_queue : Enrolled → Exec S Unit
  pub store_bootstrap_token : Enrolled → SetBootstrapToken → Exec S Unit
  pub retrieve_bootstrap_token : Enrolled → GetBootstrapToken → Exec S (Option BootstrapToken)
