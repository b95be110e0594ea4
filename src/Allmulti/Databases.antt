-- ===== src/Allmulti/Databases.antt =====
-- What the methods of the storage over several stores (storage/allmulti) make of stores with databases
-- of their own.
use nanomdm.Common.{ℕ, String, Bool, ◌≡◌, refl, List, ◌∷◌, ◌++◌, map}
use nanomdm.Mdm.Enroll.{Enrolled}
use nanomdm.Mdm.Checkin.{
  Authenticate, TokenUpdate, UserAuthenticate, SetBootstrapToken, GetBootstrapToken,
}
use nanomdm.Mdm.Command.{Command, CommandResults}
use nanomdm.Allmulti.{AllStorage, MultiAllStorage, all_storage, exec_stores}
use nanomdm.Allmulti.Mirror.{AreDistinct, Mirrors, at_part, exec_stores-Mirrors}

module _ {V Cert Sent : Type 0} where
  -- a store that keeps its state as the part `i`
  abbrev pub placed : ℕ → AllStorage V Cert Sent → AllStorage (ℕ → V) Cert Sent
  placed i st = record {
    service = record {
      store_authenticate = λ r m. at_part i (st.service.store_authenticate r m);
      store_token_update = λ r m. at_part i (st.service.store_token_update r m);
      disable = λ r. at_part i (st.service.disable r);
      store_user_authenticate = λ r m. at_part i (st.service.store_user_authenticate r m);
      store_command_report = λ r m. at_part i (st.service.store_command_report r m);
      retrieve_next_command = λ r skip. at_part i (st.service.retrieve_next_command r skip);
      clear_queue = λ r. at_part i (st.service.clear_queue r);
      store_bootstrap_token = λ r m. at_part i (st.service.store_bootstrap_token r m);
      retrieve_bootstrap_token = λ r m. at_part i (st.service.retrieve_bootstrap_token r m);
    };
    cert_auth = record {
      has_cert_hash = λ r hash. at_part i (st.cert_auth.has_cert_hash r hash);
      enrollment_has_cert_hash = λ r hash. at_part i (st.cert_auth.enrollment_has_cert_hash r hash);
      is_cert_hash_associated = λ r hash. at_part i (st.cert_auth.is_cert_hash_associated r hash);
      associate_cert_hash = λ r hash. at_part i (st.cert_auth.associate_cert_hash r hash);
    };
    retrieve_push_info = λ ids. at_part i (st.retrieve_push_info ids);
    is_push_cert_stale = λ topic token. at_part i (st.is_push_cert_stale topic token);
    retrieve_push_cert = λ topic. at_part i (st.retrieve_push_cert topic);
    store_push_cert = λ pem key. at_part i (st.store_push_cert pem key);
    enqueue_command = λ ids cmd. at_part i (st.enqueue_command ids cmd);
    enrollment_from_hash = λ hash. at_part i (st.enrollment_from_hash hash);
    retrieve_token_update_tally = λ id. at_part i (st.retrieve_token_update_tally id);
    retrieve_migration_checkins = at_part i st.retrieve_migration_checkins;
  }

  -- each method that the main service calls, with any arguments
  abbrev pub ServiceMirrors :
      List ℕ → (ℕ → AllStorage V Cert Sent) → AllStorage (ℕ → V) Cert Sent → Type 0
  ServiceMirrors is stores all =
      ((r : Enrolled) (m : Authenticate)
        → Mirrors is (λ i. (stores i).service.store_authenticate r m)
            (all.service.store_authenticate r m))
      × ((r : Enrolled) (m : TokenUpdate)
          → Mirrors is (λ i. (stores i).service.store_token_update r m)
              (all.service.store_token_update r m))
      × ((r : Enrolled) → Mirrors is (λ i. (stores i).service.disable r) (all.service.disable r))
      × ((r : Enrolled) (m : UserAuthenticate)
          → Mirrors is (λ i. (stores i).service.store_user_authenticate r m)
              (all.service.store_user_authenticate r m))
      × ((r : Enrolled) (m : CommandResults)
          → Mirrors is (λ i. (stores i).service.store_command_report r m)
              (all.service.store_command_report r m))
      × ((r : Enrolled) (skip : Bool)
          → Mirrors is (λ i. (stores i).service.retrieve_next_command r skip)
              (all.service.retrieve_next_command r skip))
      × ((r : Enrolled)
          → Mirrors is (λ i. (stores i).service.clear_queue r) (all.service.clear_queue r))
      × ((r : Enrolled) (m : SetBootstrapToken)
          → Mirrors is (λ i. (stores i).service.store_bootstrap_token r m)
              (all.service.store_bootstrap_token r m))
      × ((r : Enrolled) (m : GetBootstrapToken)
          → Mirrors is (λ i. (stores i).service.retrieve_bootstrap_token r m)
              (all.service.retrieve_bootstrap_token r m))

  -- the four methods of certificate associations
  abbrev pub CertAuthMirrors :
      List ℕ → (ℕ → AllStorage V Cert Sent) → AllStorage (ℕ → V) Cert Sent → Type 0
  CertAuthMirrors is stores all =
      ((r : Enrolled) (hash : String)
        → Mirrors is (λ i. (stores i).cert_auth.has_cert_hash r hash)
            (all.cert_auth.has_cert_hash r hash))
      × ((r : Enrolled) (hash : String)
          → Mirrors is (λ i. (stores i).cert_auth.enrollment_has_cert_hash r hash)
              (all.cert_auth.enrollment_has_cert_hash r hash))
      × ((r : Enrolled) (hash : String)
          → Mirrors is (λ i. (stores i).cert_auth.is_cert_hash_associated r hash)
              (all.cert_auth.is_cert_hash_associated r hash))
      × ((r : Enrolled) (hash : String)
          → Mirrors is (λ i. (stores i).cert_auth.associate_cert_hash r hash)
              (all.cert_auth.associate_cert_hash r hash))

  -- the methods of pushes, of the API and of the tally
  abbrev pub ApiMirrors :
      List ℕ → (ℕ → AllStorage V Cert Sent) → AllStorage (ℕ → V) Cert Sent → Type 0
  ApiMirrors is stores all =
      ((ids : List String)
        → Mirrors is (λ i. (stores i).retrieve_push_info ids) (all.retrieve_push_info ids))
      × ((topic token : String)
          → Mirrors is (λ i. (stores i).is_push_cert_stale topic token)
              (all.is_push_cert_stale topic token))
      × ((topic : String)
          → Mirrors is (λ i. (stores i).retrieve_push_cert topic) (all.retrieve_push_cert topic))
      × ((pem key : String)
          → Mirrors is (λ i. (stores i).store_push_cert pem key) (all.store_push_cert pem key))
      × ((ids : List String) (cmd : Command)
          → Mirrors is (λ i. (stores i).enqueue_command ids cmd) (all.enqueue_command ids cmd))
      × ((hash : String)
          → Mirrors is (λ i. (stores i).enrollment_from_hash hash) (all.enrollment_from_hash hash))
      × ((id : String)
          → Mirrors is (λ i. (stores i).retrieve_token_update_tally id)
              (all.retrieve_token_update_tally id))

  module _ (stores : ℕ → AllStorage V Cert Sent) (before after : List ℕ) where
    -- the stores, of which 0 is the first; the goroutines of some run before its own
    abbrev pub databases : MultiAllStorage (ℕ → V) Cert Sent
    databases = record {
      before = map (λ i. placed i (stores i)) before;
      first = placed 0 (stores 0);
      after = map (λ i. placed i (stores i)) after;
    }

    mirrors :
        {R : Type 0} (call : AllStorage (ℕ → V) Cert Sent → (ℕ → V) → R × (ℕ → V))
        (own : ℕ → V → R × V)
        → ((i : ℕ) (s : ℕ → V) → call (placed i (stores i)) s ≡ at_part i (own i) s)
        → AreDistinct (before ++ (0 ∷ after))
        → Mirrors (before ++ (0 ∷ after)) own (
            exec_stores call
              (map (λ i. placed i (stores i)) before)
              (placed 0 (stores 0))
              (map (λ i. placed i (stores i)) after))
    mirrors call own same d =
        exec_stores-Mirrors call (λ i. placed i (stores i)) own same before after d

    -- Where each store keeps a state of its own, and no store is there twice: each method of the
    -- storage over them but RetrieveMigrationCheckins, with any arguments and in whatever order the
    -- stores run, answers with the value and the error of the first store, and leaves every store in
    -- the state that its own call of the method leaves, whether the other calls fail or not.
    pub all_storage-Mirrors :
        AreDistinct (before ++ (0 ∷ after))
        → ServiceMirrors (before ++ (0 ∷ after)) stores (all_storage databases)
          × CertAuthMirrors (before ++ (0 ∷ after)) stores (all_storage databases)
          × ApiMirrors (before ++ (0 ∷ after)) stores (all_storage databases)
    all_storage-Mirrors d = (
      (
        (λ r m.
            mirrors (λ st. st.service.store_authenticate r m)
              (λ i. (stores i).service.store_authenticate r m) (λ i s. refl) d),
        (λ r m.
            mirrors (λ st. st.service.store_token_update r m)
              (λ i. (stores i).service.store_token_update r m) (λ i s. refl) d),
        (λ r.
            mirrors (λ st. st.service.disable r) (λ i. (stores i).service.disable r) (λ i s. refl)
              d),
        (λ r m.
            mirrors (λ st. st.service.store_user_authenticate r m)
              (λ i. (stores i).service.store_user_authenticate r m) (λ i s. refl) d),
        (λ r m.
            mirrors (λ st. st.service.store_command_report r m)
              (λ i. (stores i).service.store_command_report r m) (λ i s. refl) d),
        (λ r skip.
            mirrors (λ st. st.service.retrieve_next_command r skip)
              (λ i. (stores i).service.retrieve_next_command r skip) (λ i s. refl) d),
        (λ r.
            mirrors (λ st. st.service.clear_queue r) (λ i. (stores i).service.clear_queue r)
              (λ i s. refl) d),
        (λ r m.
            mirrors (λ st. st.service.store_bootstrap_token r m)
              (λ i. (stores i).service.store_bootstrap_token r m) (λ i s. refl) d),
        (λ r m.
            mirrors (λ st. st.service.retrieve_bootstrap_token r m)
              (λ i. (stores i).service.retrieve_bootstrap_token r m) (λ i s. refl) d),
      ),
      (
        (λ r hash.
            mirrors (λ st. st.cert_auth.has_cert_hash r hash)
              (λ i. (stores i).cert_auth.has_cert_hash r hash) (λ i s. refl) d),
        (λ r hash.
            mirrors (λ st. st.cert_auth.enrollment_has_cert_hash r hash)
              (λ i. (stores i).cert_auth.enrollment_has_cert_hash r hash) (λ i s. refl) d),
        (λ r hash.
            mirrors (λ st. st.cert_auth.is_cert_hash_associated r hash)
              (λ i. (stores i).cert_auth.is_cert_hash_associated r hash) (λ i s. refl) d),
        (λ r hash.
            mirrors (λ st. st.cert_auth.associate_cert_hash r hash)
              (λ i. (stores i).cert_auth.associate_cert_hash r hash) (λ i s. refl) d),
      ),
      (
        (λ ids.
            mirrors (λ st. st.retrieve_push_info ids) (λ i. (stores i).retrieve_push_info ids)
              (λ i s. refl) d),
        (λ topic token.
            mirrors (λ st. st.is_push_cert_stale topic token)
              (λ i. (stores i).is_push_cert_stale topic token) (λ i s. refl) d),
        (λ topic.
            mirrors (λ st. st.retrieve_push_cert topic) (λ i. (stores i).retrieve_push_cert topic)
              (λ i s. refl) d),
        (λ pem key.
            mirrors (λ st. st.store_push_cert pem key) (λ i. (stores i).store_push_cert pem key)
              (λ i s. refl) d),
        (λ ids cmd.
            mirrors (λ st. st.enqueue_command ids cmd) (λ i. (stores i).enqueue_command ids cmd)
              (λ i s. refl) d),
        (λ hash.
            mirrors (λ st. st.enrollment_from_hash hash) (λ i. (stores i).enrollment_from_hash hash)
              (λ i s. refl) d),
        (λ id.
            mirrors (λ st. st.retrieve_token_update_tally id)
              (λ i. (stores i).retrieve_token_update_tally id) (λ i s. refl) d),
      ),
    )
