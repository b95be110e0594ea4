-- ===== src/Server.antt =====
-- cmd/nanomdm/main.go: the services of the server, as its flags set them up; `Endpoints` has the
-- handlers. Reading the flags and the files of certificates, the checks of the flags, the listener, the
-- tracing and the logging are left out, and so are the routes under "/v1/", which http/api/v1.go adds.
-- What goes to stdout is the list of what a dumper wrote.
pub mod Endpoints
pub mod Verified
pub mod Routes
pub mod Silent
pub mod OtherCert
mod Tests
use nanomdm.Common.{
  ℕ, String, Bool, not, Option, none, some, List, [], ◌∷◌, ◌++◌, ◌==◌, if◌then◌else◌,
}
use nanomdm.Common.Fault.{Result, ok, err, nil_dereference, ◌>>=◌}
use nanomdm.Common.Exec.{Exec, lift, beside}
use nanomdm.Mdm.Enroll.{Request, Certificate, Enrolled}
use nanomdm.Mdm.Checkin.{Plist, UserAuthenticate}
use nanomdm.Mdm.Command.{CommandResults}
use nanomdm.Service.{CheckinAndCommandService, CertAuthStore, ServiceStore, Method}
use nanomdm.Service.Dispatch.{Marshal}
use nanomdm.Service.Nano.{Nano, new_nano, nano}
use nanomdm.Service.Nano.Handlers.{UaService, ua_user_authenticate, mux_get_token}
use nanomdm.Service.Multi.{multi}
use nanomdm.Service.Webhook.{Webhook, webhook}
use nanomdm.Service.Dump.{Written, dump}
use nanomdm.Service.DmHook.{
  DmHook, with_set_hmac_secret, with_verify_hmac_secret, declarative_management,
}
use nanomdm.CertAuth.{CertAuth, cert_auth}
use nanomdm.CertVerify.{pool_verify}
use nanomdm.Http.{
  HttpRequest, Writer, Handler, checkin_handler, command_and_report_results_handler,
  checkin_and_command_handler,
}
use nanomdm.Http.Extract.{Decoders}
use nanomdm.Http.Identity.{
  cert_extract_pem_header_middleware, cert_extract_mdm_signature_middleware, cert_verify_middleware,
  cert_with_enrollment_id_middleware,
}
use nanomdm.Http.AuthProxy.{Config, with_header_func, auth_proxy}

-- the flags that the set-up of the handlers reads
pub record Flags : Type 0 where
  pub api_key : String
  pub webhook_url : String
  pub cert_header : String
  pub dump : Bool
  pub disable_mdm : Bool
  pub checkin : Bool
  pub migration : Bool
  pub retro : Bool
  pub dm_url : String
  pub dm_send_key : String
  pub dm_recv_key : String
  pub auth_proxy_url : String
  pub ua_zl : Bool

-- the handlers that are registered, with their paths
abbrev pub Routes : Type 0 → Type 0
Routes S = List (String × Handler (Written × S))

abbrev pub Middleware : Type 0 → Type 0
Middleware T = Handler T → Handler T

-- What main makes the handlers of: the storage, and what stands for net/http, crypto/x509 and the other
-- packages that are no part of the repository.
pub record Parts (S : Type 0) : Type 1 where
  pub store : ServiceStore S
  pub cert_store : CertAuthStore S
  pub enrollment_from_hash : String → Exec S String
  pub hash_cert : Certificate → String
  -- cert.Verify with the pools of the files
  pub verify_chain : Certificate → Result (Unit {0})
  pub verify_mdm_signature : String → String → Result (Option Certificate)
  pub decoders : Decoders
  -- dmhook.New of a URL, and the HMAC with a key, with its encoding
  pub new_dm_hook : String → Result (DmHook S)
  pub hmac : String → String → String
  pub encode : String → String
  pub decode : String → Result String
  -- webhook.New of a URL with its options
  pub new_webhook : String → Webhook S
  pub encode_base64 : String → String
  pub token_text : String → String
  pub writer : Writer (Written × S)
  pub marshal : Marshal
  pub plist : Plist
  pub unmarshal : String → Result CommandResults
  -- url.Parse with the host and the director of httputil.NewSingleHostReverseProxy, and what it does
  -- after the Director
  pub new_proxy : String → Result (String × (HttpRequest → HttpRequest))
  pub forward : String × HttpRequest → Written × S → Written × S
  pub strip_prefix : String → Middleware (Written × S)
  pub trace_id : HttpRequest → String
  -- MWMux of nanolib: a handler behind the middlewares that were used before it was registered
  pub chain : List (Middleware (Written × S)) → Middleware (Written × S)
  -- NewSimpleBasicAuthHandler for a key
  pub basic_auth : String → Middleware (Written × S)

module _ {S : Type 0} where
  -- a call that writes nothing to stdout
  unwritten : {A : Type 0} → Exec (Request × S) A → Exec (Request × (Written × S)) A
  unwritten call (q, (log, s)) = let (r, (q', s')) = call (q, s) in (r, (q', (log, s')))

  -- a service in front of which there is no dumper
  unfoldable silent : CheckinAndCommandService S → CheckinAndCommandService (Written × S)
  unfolding unwritten
  silent svc = record {
    authenticate = λ m. unwritten (svc.authenticate m);
    token_update = λ m. unwritten (svc.token_update m);
    check_out = λ m. unwritten (svc.check_out m);
    user_authenticate = λ m. unwritten (svc.user_authenticate m);
    set_bootstrap_token = λ m. unwritten (svc.set_bootstrap_token m);
    get_bootstrap_token = λ m. unwritten (svc.get_bootstrap_token m);
    declarative_management = λ m. unwritten (svc.declarative_management m);
    get_token = λ m. unwritten (svc.get_token m);
    command_and_report_results = λ m. unwritten (svc.command_and_report_results m);
  }

  -- UserAuthenticate of the handler that NewUAService makes, where the request has its enrollment ID
  unfoldable ua_method : ServiceStore S → Bool → Method S UserAuthenticate (Option String)
  ua_method store zero_length m (q, s) = elim q.enroll_id [
    | none ↦ (err nil_dereference, (q, s))
    | some eid ↦
        beside
          (ua_user_authenticate
            (record {
              store_user_authenticate = store.store_user_authenticate;
              send_empty_digest_challenge = zero_length;
              store_rejected_user_auth = Bool.false;
            })
            (record { enroll_id = eid; certificate = q.certificate }) m)
          (q, s)
  ]

module _ {S : Type 0} (p : Parts S) (f : Flags) where
  -- the options of the hook, by its two keys
  unfoldable dm_options : DmHook S → DmHook S
  dm_options c =
      let sending =
        if f.dm_send_key == "" then c else with_set_hmac_secret (p.hmac f.dm_send_key) p.encode c in
      if f.dm_recv_key == ""
      then sending
      else with_verify_hmac_secret (p.hmac f.dm_recv_key) p.decode sending

  -- the 'core' service
  core_with : Option (DmHook S) → Nano S
  unfolding ua_method
  core_with none = record (new_nano p.store) {
    ua = some (ua_method p.store f.ua_zl);
    gt = some (λ m. mux_get_token [] (some m));
  }
  core_with (some c) = record (new_nano p.store) {
    ua = some (ua_method p.store f.ua_zl);
    gt = some (λ m. mux_get_token [] (some m));
    dm = some (declarative_management c);
  }

  unfoldable core : Result (Nano S)
  unfolding core_with dm_options
  core =
      if f.dm_url == ""
      then ok (core_with none)
      else p.new_dm_hook f.dm_url >>= λ c. ok (core_with (some (dm_options c)))

  -- the service behind the MDM endpoints: webhook, certificate check, dumper
  unfoldable pub with_webhook : CheckinAndCommandService S → CheckinAndCommandService S
  with_webhook svc =
      if f.webhook_url == ""
      then svc
      else multi (record { first = svc; others = webhook (p.new_webhook f.webhook_url) ∷ [] })

  abbrev pub with_cert_auth : CheckinAndCommandService S → CertAuth S
  with_cert_auth svc = record {
    next = with_webhook svc;
    storage = p.cert_store;
    hash_cert = p.hash_cert;
    allow_dup = Bool.false;
    allow_retroactive = f.retro;
    warn_only = Bool.false;
  }

  unfoldable mdm_service : CheckinAndCommandService S → CheckinAndCommandService (Written × S)
  unfolding with_webhook
  mdm_service svc =
      let checked = cert_auth (with_cert_auth svc) in
      if f.dump
      then dump (record {
        next = checked;
        cmd = Bool.true;
        bst = Bool.true;
        usr = Bool.true;
        dm = Bool.true;
        encode_base64 = p.encode_base64;
        token_text = p.token_text;
      })
      else silent checked
