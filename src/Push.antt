-- ===== src/Push.antt =====
-- push/push.go: the interfaces of push notifications. `Service` is push/service, `Nanopush` the
-- provider's bookkeeping in push/nanopush.
pub mod Service
pub mod Nanopush
pub mod Tests
use nanomdm.Common.{String, Bool, Option, List}
use nanomdm.Common.Fault.{Error}
use nanomdm.Common.GoMap.{GoMap}
use nanomdm.Mdm.Checkin
use nanomdm.Common.Exec.{Exec}

pub record Response : Type 0 where
  pub id : String
  pub error : Option Error

-- Pusher, keyed by enrollment IDs, and PushProvider, keyed by the text of push tokens. A Go function
-- that returns a map beside an error returns both here.
abbrev pub Pusher : Type 0 → Type 0
Pusher S = List String → S → (GoMap Response × Option Error) × S

abbrev pub PushProvider : Type 0 → Type 0
PushProvider S = List Checkin.Push → S → (GoMap Response × Option Error) × S

-- storage.PushStore and storage.PushCertStore, with PushProviderFactory. `Cert` is tls.Certificate.
pub record PushStores (S Cert : Type 0) : Type 0 where
  pub retrieve_push_info : List String → Exec S (GoMap Checkin.Push)
  pub is_push_cert_stale : String → String → Exec S Bool
  pub retrieve_push_cert : String → Exec S (Cert × String)
  pub new_push_provider : Cert → Exec S (PushProvider S)
