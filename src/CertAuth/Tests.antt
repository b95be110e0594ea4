-- ===== src/CertAuth/Tests.antt =====
-- The theorems about the certificate associations and the middleware of service/certauth at concrete
-- inputs, on stores in memory.
use nanomdm.Common.{◌≡◌, refl, true, false, Option, none, some, [], ◌∷◌}
use nanomdm.Common.Fault.{Error, ok, err, wrap, no_cert_assoc}
use nanomdm.Common.Exec.{pure}
use nanomdm.Bucket.Memory.{
  Memory, contents, bucket-IsReliable, txn_bucket-CommitsBody, at_number, empty,
}
use nanomdm.Mdm.Enroll.{Enrollment, EnrollId, Request, Certificate, validate, resolved}
use nanomdm.Mdm.Checkin
use nanomdm.Service.{CheckinAndCommandService}
use nanomdm.Service.Dispatch.{Marshal, checkin_request, command_and_report_results_request}
use nanomdm.Kv.CommandQueue.Tests.{kv, results}
use nanomdm.Kv.CertHash.{cert_auth_store}
use nanomdm.Kv.CertHash.Laws.{associations, cert_auth_store-IsFaithful}
use nanomdm.CertAuth
use nanomdm.CertAuth.{
  CertAuth, cert_auth, associate_for_new_enrollment, validate_or_associate_for_existing_enrollment,
}
use nanomdm.CertAuth.Policy.{
  IsFaithful, associate_for_new_enrollment-verdict,
  validate_or_associate_for_existing_enrollment-verdict,
}
use nanomdm.CertAuth.Safety.{Refuses, validate_or_associate_for_existing_enrollment-links}
use nanomdm.CertAuth.Gate.{requests_missing_cert}

computes : Unit {0}
unfolding resolved validate CertAuth.normalize
computes = tt

abbrev pub enrollment : Enrollment
enrollment = record {
  udid = "d";
  user_id = "u";
  user_short_name = "";
  user_long_name = "";
  enrollment_id = "";
  enrollment_user_id = "";
}

abbrev cert : Certificate
cert = record { raw = "c" }

abbrev pub request : Option Certificate → Request
request c = record { enroll_id = none; certificate = c; params = none }

-- a service that does nothing
abbrev idle : CheckinAndCommandService Memory
idle = record {
  authenticate = λ m. pure tt;
  token_update = λ m. pure tt;
  check_out = λ m. pure tt;
  user_authenticate = λ m. pure none;
  set_bootstrap_token = λ m. pure tt;
  get_bootstrap_token = λ m. pure none;
  declarative_management = λ m. pure none;
  get_token = λ m. pure none;
  command_and_report_results = λ m. pure none;
}

abbrev auth : CertAuth Memory
auth = record {
  next = idle;
  storage = cert_auth_store kv;
  hash_cert = λ c. c.raw;
  allow_dup = false;
  allow_retroactive = false;
  warn_only = false;
}

cert_auth_store-IsFaithful_example : IsFaithful (cert_auth_store kv) (associations (contents 0))
cert_auth_store-IsFaithful_example =
    cert_auth_store-IsFaithful kv (contents 0) (bucket-IsReliable 0) (txn_bucket-CommitsBody 0)

faithful : IsFaithful (cert_auth_store kv) (associations (contents 0))
faithful =
    cert_auth_store-IsFaithful kv (contents 0) (bucket-IsReliable 0) (txn_bucket-CommitsBody 0)

-- the device d with the hash c
abbrev pub bound : Memory
bound = at_number 0 (("d.cert_hash", "c") ∷ ("c.hash_cert", "d") ∷ []) empty

abbrev device_id : EnrollId
device_id = record { type = 2; id = "d"; parent_id = "" }

valid_device : validate (CertAuth.normalize enrollment) ≡ ok device_id
unfolding computes
valid_device = refl

associate_for_new_enrollment-verdict_example :
    associate_for_new_enrollment auth enrollment (request (some cert), empty)
    ≡ (ok tt, (request (some cert), (associations (contents 0)).link "d" "c" empty))
associate_for_new_enrollment-verdict_example =
    associate_for_new_enrollment-verdict auth (associations (contents 0)) faithful enrollment
      (request (some cert)) cert device_id empty refl valid_device

validate_or_associate_for_existing_enrollment-verdict_example :
    validate_or_associate_for_existing_enrollment auth enrollment (request (some cert), empty)
    ≡ (err (wrap "cert auth: existing enrollment" no_cert_assoc), (request (some cert), empty))
validate_or_associate_for_existing_enrollment-verdict_example =
    validate_or_associate_for_existing_enrollment-verdict auth (associations (contents 0)) faithful
      enrollment (request (some cert)) cert device_id empty refl valid_device

passes :
    validate_or_associate_for_existing_enrollment auth enrollment (request (some cert), bound)
    ≡ (ok tt, (request (some cert), bound))
passes =
    validate_or_associate_for_existing_enrollment-verdict auth (associations (contents 0)) faithful
      enrollment (request (some cert)) cert device_id bound refl valid_device

validate_or_associate_for_existing_enrollment-links_example :
    (k : Certificate) × (eid : EnrollId) × (some cert ≡ some k)
    × (validate (CertAuth.normalize enrollment) ≡ ok eid)
    × ((associations (contents 0)).linked bound eid.id k.raw ≡ true)
validate_or_associate_for_existing_enrollment-links_example =
    validate_or_associate_for_existing_enrollment-links auth (associations (contents 0)) faithful
      enrollment (request (some cert)) (request (some cert)) bound bound refl passes

abbrev other : Certificate
other = record { raw = "x" }

abbrev check_out : Checkin.CheckOut
check_out = record { enrollment = enrollment; message_type = "CheckOut"; raw = "<plist/>" }

abbrev pub token_update : Checkin.TokenUpdate
token_update = record {
  enrollment = enrollment;
  message_type = "TokenUpdate";
  push = record { topic = "t"; push_magic = "m"; token = "k" };
  unlock_token = "";
  raw = "<plist/>";
}

-- a decoder that reads every document as the check-out message above
abbrev decoder : Checkin.Plist
decoder = record {
  Document = Unit;
  parse = λ body. ok tt;
  read_type = λ doc. ok "CheckOut";
  read_message = λ doc m. ok (Checkin.check_out check_out);
}

abbrev encoder : Marshal
encoder = record { bootstrap_token = λ t. ok "token"; token_response = λ t. ok "response" }

requests_missing_cert_example :
    ((x : Error) × Refuses
        (checkin_request (cert_auth auth) encoder decoder "<plist/>")
        (request none, bound)
        x)
    × ((x : Error) × Refuses
          (command_and_report_results_request
            (cert_auth auth)
            (λ body. ok (results "a" "Idle"))
            "<plist/>")
          (request none, bound)
          x)
requests_missing_cert_example =
    requests_missing_cert auth encoder (request none) bound refl decoder
      (λ body. ok (results "a" "Idle")) "<plist/>"
