-- ===== src/Allmulti.antt =====
-- storage/allmulti: a storage over several others, which answers with what its first store answers.
-- There is at least one store. Each store's call by a goroutine is one step on the state that the
-- stores share; logging is left out.
pub mod Mirror
pub mod Databases
mod Tests
use nanomdm.Common.{String, Bool, Option, List, [], ◌∷◌, ℕ, ◌++◌}
use nanomdm.Common.Fault.{Error}
use nanomdm.Common.Exec.{Exec}
use nanomdm.Common.GoMap.{GoMap}
use nanomdm.Mdm.Checkin.{Push}
use nanomdm.Api.{CommandEnqueuer}
use nanomdm.Service.{ServiceStore, CertAuthStore}

-- storage.AllStorage. `Cert` is tls.Certificate, and `Sent` what is sent on the channel of a migration.
pub record AllStorage (S Cert Sent : Type 0) : Type 0 where
  pub service : ServiceStore S
  pub cert_auth : CertAuthStore S
  pub retrieve_push_info : List String → Exec S (GoMap Push)
  pub is_push_cert_stale : String → String → Exec S Bool
  pub retrieve_push_cert : String → Exec S (Cert × String)
  pub store_push_cert : String → String → Exec S Unit
  pub enqueue_command : CommandEnqueuer S
  pub enrollment_from_hash : String → Exec S String
  pub retrieve_migration_checkins : Exec S (List Sent)
  pub retrieve_token_update_tally : String → Exec S ℕ

-- MultiAllStorage: `stores[0]`, and the others by whether their goroutines run before the first's.
pub record MultiAllStorage (S Cert Sent : Type 0) : Type 0 where
  pub before : List (AllStorage S Cert Sent)
  pub first : AllStorage S Cert Sent
  pub after : List (AllStorage S Cert Sent)

module _ {S R Store : Type 0} (call : Store → S → R × S) where
  unfoldable pub run_all : List Store → S → S
  run_all [] s = s
  run_all (store ∷ stores) s = run_all stores (call store s).1

  -- execStores: the value and the error of the first store, those of the others are dropped
  unfoldable pub exec_stores : List Store → Store → List Store → S → R × S
  unfolding run_all
  exec_stores before first after s =
      let (r, s') = call first (run_all before s) in (r, run_all after s')

module _ {S Cert Sent : Type 0} (ms : MultiAllStorage S Cert Sent) where
  abbrev exec : {R : Type 0} → (AllStorage S Cert Sent → S → R × S) → S → R × S
  exec call = exec_stores call ms.before ms.first ms.after

  -- the methods of certauth.go but EnrollmentFromHash
  abbrev all_cert_auth : CertAuthStore S
  all_cert_auth = record {
    has_cert_hash = λ r hash. exec (λ st. st.cert_auth.has_cert_hash r hash);
    enrollment_has_cert_hash = λ r hash. exec (λ st. st.cert_auth.enrollment_has_cert_hash r hash);
    is_cert_hash_associated = λ r hash. exec (λ st. st.cert_auth.is_cert_hash_associated r hash);
    associate_cert_hash = λ r hash. exec (λ st. st.cert_auth.associate_cert_hash r hash);
  }

  -- the migration only uses the first store
  abbrev all_migration_checkins : Exec S (List Sent)
  all_migration_checkins = ms.first.retrieve_migration_checkins

  -- all methods
  abbrev pub all_storage : AllStorage S Cert Sent
  all_storage = record {
    service = record {
      store_authenticate = λ r m. exec (λ st. st.service.store_authenticate r m);
      store_token_update = λ r m. exec (λ st. st.service.store_token_update r m);
      disable = λ r. exec (λ st. st.service.disable r);
      store_user_authenticate = λ r m. exec (λ st. st.service.store_user_authenticate r m);
      store_command_report = λ r m. exec (λ st. st.service.store_command_report r m);
      retrieve_next_command = λ r skip. exec (λ st. st.service.retrieve_next_command r skip);
      clear_queue = λ r. exec (λ st. st.service.clear_queue r);
      store_bootstrap_token = λ r m. exec (λ st. st.service.store_bootstrap_token r m);
      retrieve_bootstrap_token = λ r m. exec (λ st. st.service.retrieve_bootstrap_token r m);
    };
    cert_auth = all_cert_auth;
    retrieve_push_info = λ ids. exec (λ st. st.retrieve_push_info ids);
    is_push_cert_stale = λ topic token. exec (λ st. st.is_push_cert_stale topic token);
    retrieve_push_cert = λ topic. exec (λ st. st.retrieve_push_cert topic);
    store_push_cert = λ pem key. exec (λ st. st.store_push_cert pem key);
    enqueue_command = λ ids cmd. exec (λ st. st.enqueue_command ids cmd);
    enrollment_from_hash = λ hash. exec (λ st. st.enrollment_from_hash hash);
    retrieve_migration_checkins = all_migration_checkins;
    retrieve_token_update_tally = λ id. exec (λ st. st.retrieve_token_update_tally id);
  }
