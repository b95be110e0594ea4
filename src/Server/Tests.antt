-- ===== src/Server/Tests.antt =====
-- The server of cmd/nanomdm/main.go over stores in memory, with a proxy and a header for certificates.
use nanomdm.Common.{
  String, ◌≡◌, refl, none, some, true, false, List, [], ◌∷◌, ◌==◌, ◌^^◌, if◌then◌else◌,
}
use nanomdm.Common.Fault.{Error, Result, ok, err, fault}
use nanomdm.Bucket.Memory.{
  Memory, at_number, contents, empty, bucket-IsReliable, txn_bucket-CommitsBody,
}
use nanomdm.Mdm.Enroll.{EnrollId, validate, resolved}
use nanomdm.Mdm.Checkin
use nanomdm.Mdm.Checkin.{Plist, decode_checkin}
use nanomdm.Mdm.Command.{CommandResults, decode_command_results}
use nanomdm.Kv.CommandQueue.Tests.{kv, results}
use nanomdm.Kv.CertHash.{cert_auth_store, enrollment_from_hash}
use nanomdm.Kv.CertHash.Laws.{associations, cert_auth_store-IsFaithful}
use nanomdm.Kv.Enrollments.{kv_store}
use nanomdm.CertAuth
use nanomdm.CertAuth.Tests
use nanomdm.CertAuth.Tests.{enrollment, request}
use nanomdm.Service.Dispatch.{checkin_request, command_and_report_results_request}
use nanomdm.Service.Dump.Laws.{without_log}
use nanomdm.Service.Nano
use nanomdm.Service.Nano.{Nano}
use nanomdm.Service.Dump.{Written}
use nanomdm.CertVerify.{pool_verify}
use nanomdm.Http.{HttpRequest, Handler, Writer, fail}
use nanomdm.Http.Extract.{extract, extract_query_escaped_pem, decode_pem_certificate}
use nanomdm.Http.Identity.{
  cert_extract_pem_header_middleware, cert_verify_middleware, cert_with_enrollment_id_middleware,
}
use nanomdm.Http.AuthProxy.{director, auth_proxy, set_headers, with_header_func}
use nanomdm.Server.{Flags, Parts, Routes, Middleware, mdm_service}
use nanomdm.Server.Endpoints.{
  mdm_handlers, proxy_handler, proxy_handlers, mdm_routes, mdm_auth, extract_certificate,
  verify_certificate,
}
use nanomdm.Server.OtherCert.{mdm_service_other_cert}
use nanomdm.Server.Verified.{RunsInOrder}
use nanomdm.Server.Routes.{AllGuard, mdm_routes-AllGuard}

abbrev chain : List (Middleware (Written × Memory)) → Middleware (Written × Memory)
chain [] h = h
chain (m ∷ ms) h = m (chain ms h)

abbrev leave : Checkin.CheckOut
leave = record { enrollment = enrollment; message_type = "CheckOut"; raw = "<plist/>" }

abbrev idle_report : CommandResults
idle_report = record (results "a" "Idle") { enrollment = enrollment; raw = "<report/>" }

abbrev decoder : Plist
decoder = record {
  Document = Unit;
  parse = λ body. ok tt;
  read_type = λ doc. ok "CheckOut";
  read_message = λ doc m. ok (Checkin.check_out leave);
}

-- answers are kept in another bucket of the memory
abbrev writer : Writer (Written × Memory)
writer = record {
  error = λ text code (log, s). (log, at_number 9 (("error", text) ∷ []) s);
  status_text = λ code. "Bad Request";
  write = λ body ls. ls;
}

abbrev parts : Parts Memory
parts = record {
  store = kv_store kv 3;
  cert_store = cert_auth_store kv;
  enrollment_from_hash = enrollment_from_hash kv;
  hash_cert = λ c. c.raw;
  verify_chain = λ c. if c.raw == "c" then ok tt else err (fault "unknown authority");
  verify_mdm_signature = λ signature body. err (fault "signature");
  decoders = record {
    base64 = λ text. ok text;
    parse_certificate = λ text. ok (record { raw = text });
    query_unescape = λ text. ok text;
    pem_block = λ text. some ("CERTIFICATE", text);
  };
  new_dm_hook = λ url. err (fault "URL");
  hmac = λ key text. key ^^ text;
  encode = λ text. text;
  decode = λ text. ok text;
  new_webhook = λ url. record {
    marshal = λ e. ok e.topic;
    post = λ body s. (ok (200, "200 OK"), s);
    encode_base64 = λ s. s;
    store = none;
    now = λ s. "0";
    event_id = none;
  };
  encode_base64 = λ text. text;
  token_text = λ text. text;
  writer = writer;
  marshal = record { bootstrap_token = λ t. ok "token"; token_response = λ t. ok "response" };
  plist = decoder;
  unmarshal = λ body. ok idle_report;
  new_proxy = λ url. ok ("upstream", λ r. r);
  forward = λ (host, r) (log, s). (log, at_number 9 (("seen", r.header "X-Enrollment-ID") ∷ []) s);
  strip_prefix = λ prefix h. h;
  trace_id = λ r. "trace";
  chain = chain;
  basic_auth = λ key h. h;
}

abbrev flags : Flags
flags = record {
  api_key = "";
  webhook_url = "http://webhook/";
  cert_header = "X-Cert";
  dump = true;
  disable_mdm = false;
  checkin = true;
  migration = false;
  retro = false;
  dm_url = "";
  dm_send_key = "";
  dm_recv_key = "";
  auth_proxy_url = "http://upstream/";
  ua_zl = false;
}

parts-RunsInOrder : RunsInOrder parts
parts-RunsInOrder = record { chain-nil = λ h. refl; chain-cons = λ m ms h. refl }

abbrev main : Nano Memory
main = Nano.new_nano (kv_store kv 3)

abbrev registered : Result (Routes Memory) → Routes Memory
registered (ok rs) = rs
registered (err e) = []

-- the three routes for devices
abbrev devices : Routes Memory
devices = registered (mdm_routes parts flags (Nano.nano main))

-- the first handler of a path
abbrev serve : String → Routes Memory → Handler (Written × Memory)
serve path [] = λ r ls. ls
serve path ((k, h) ∷ rs) = if k == path then h else serve path rs

abbrev with_header : String → HttpRequest
with_header cert = record {
  header = λ name. if name == "X-Cert" then cert else "";
  query = [];
  body = ok "<plist/>";
  peer_certificates = none;
  certificate = none;
  enrollment_id = "";
}

abbrev bound : Memory
bound = at_number 0 (("c.hash_cert", "d") ∷ []) empty

computes : Unit {0}
unfolding mdm_routes mdm_handlers proxy_handlers proxy_handler mdm_auth extract_certificate
    verify_certificate
computes = tt

computes_http : Unit {0}
unfolding cert_extract_pem_header_middleware cert_verify_middleware
    cert_with_enrollment_id_middleware enrollment_from_hash fail extract director auth_proxy
    set_headers with_header_func pool_verify extract_query_escaped_pem decode_pem_certificate
computes_http = tt

are_registered : mdm_routes parts flags (Nano.nano main) ≡ ok devices
unfolding mdm_routes mdm_handlers proxy_handlers
are_registered = refl

served :
    (serve "/authproxy/" devices (with_header "c") ([], bound)
      ≡ ([], at_number 9 (("seen", "d") ∷ []) bound))
    × (serve "/mdm" devices (with_header "") ([], bound)
        ≡ ([], at_number 9 (("error", "Bad Request") ∷ []) bound))
unfolding computes computes_http
served = (refl, refl)

mdm_routes-AllGuard_example : AllGuard parts flags devices
mdm_routes-AllGuard_example =
    mdm_routes-AllGuard parts flags parts-RunsInOrder (Nano.nano main) devices are_registered

abbrev device : EnrollId
device = record { type = 2; id = "d"; parent_id = "" }

is_device : validate (CertAuth.normalize enrollment) ≡ ok device
unfolding resolved validate CertAuth.normalize
is_device = refl

decoded : decode_checkin decoder "<plist/>" ≡ ok (Checkin.check_out leave)
unfolding decode_checkin Checkin.new_checkin_message_for_type
decoded = refl

report_decoded : decode_command_results parts.unmarshal "<report/>" ≡ ok idle_report
unfolding decode_command_results
report_decoded = refl

mdm_service_other_cert_example :
    ((x : Error) × (without_log (
          checkin_request
            (mdm_service parts flags (Nano.nano main))
            parts.marshal
            decoder
            "<plist/>"
            (request (some (record { raw = "x" })), ([], CertAuth.Tests.bound)))
        ≡ (err x, (request (some (record { raw = "x" })), CertAuth.Tests.bound))))
    × ((x : Error) × (without_log (
            command_and_report_results_request
              (mdm_service parts flags (Nano.nano main))
              parts.unmarshal
              "<report/>"
              (request (some (record { raw = "x" })), ([], CertAuth.Tests.bound)))
          ≡ (err x, (request (some (record { raw = "x" })), CertAuth.Tests.bound))))
mdm_service_other_cert_example =
    mdm_service_other_cert parts flags (Nano.nano main) (associations (contents 0))
      (cert_auth_store-IsFaithful kv (contents 0) (bucket-IsReliable 0) (txn_bucket-CommitsBody 0))
      (request (some (record { raw = "x" }))) (record { raw = "x" }) device enrollment []
      CertAuth.Tests.bound "<plist/>" (Checkin.check_out leave) "<report/>" idle_report refl
      is_device refl refl decoded refl report_decoded refl
