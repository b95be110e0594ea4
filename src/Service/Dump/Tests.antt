-- ===== src/Service/Dump/Tests.antt =====
-- The dumper in front of a service that answers every report with a command.
use nanomdm.Common.{String, ◌≡◌, refl, true, none, some, [], ◌∷◌}
use nanomdm.Common.Fault.{Result, ok}
use nanomdm.Common.Exec.{pure}
use nanomdm.Bucket.Memory.{Memory, empty}
use nanomdm.Mdm.Enroll.{Request}
use nanomdm.Mdm.Checkin
use nanomdm.Mdm.Checkin.{Plist}
use nanomdm.Mdm.Command.{CommandResults, decode_command_results}
use nanomdm.Kv.CommandQueue.Tests.{results}
use nanomdm.Service.{CheckinAndCommandService}
use nanomdm.Service.Dispatch.{Marshal, checkin_request, command_and_report_results_request}
use nanomdm.Service.Dump.{Dumper, dump}
use nanomdm.Service.Dump.Laws.{
  without_log, checkin_request-dump, command_and_report_results_request-dump,
}

abbrev service : CheckinAndCommandService Memory
service = record {
  authenticate = λ m. pure tt;
  token_update = λ m. pure tt;
  check_out = λ m. pure tt;
  user_authenticate = λ m. pure (some "challenge");
  set_bootstrap_token = λ m. pure tt;
  get_bootstrap_token = λ m. pure none;
  declarative_management = λ m. pure none;
  get_token = λ m. pure none;
  command_and_report_results = λ m.
      pure (some (record { command_uuid = "a"; request_type = "DeviceLock"; raw = "<lock/>" }));
}

abbrev dumper : Dumper Memory
dumper = record {
  next = service;
  cmd = true;
  bst = true;
  usr = true;
  dm = true;
  encode_base64 = λ text. text;
  token_text = λ text. text;
}

abbrev request : Request
request = record { enroll_id = none; certificate = none; params = none }

abbrev user_authenticate : Checkin.UserAuthenticate
user_authenticate = record {
  enrollment = Checkin.no_enrollment;
  message_type = "UserAuthenticate";
  digest_response = "";
  raw = "<user/>";
}

abbrev decoder : Plist
decoder = record {
  Document = Unit;
  parse = λ body. ok tt;
  read_type = λ doc. ok "UserAuthenticate";
  read_message = λ doc m. ok (Checkin.user_authenticate user_authenticate);
}

abbrev encoder : Marshal
encoder = record { bootstrap_token = λ t. ok "token"; token_response = λ t. ok "response" }

abbrev unmarshal : String → Result CommandResults
unmarshal body = ok (results "a" "Acknowledged")

checkin_request-dump_example :
    without_log (checkin_request (dump dumper) encoder decoder "<plist/>" (request, ([], empty)))
    ≡ checkin_request service encoder decoder "<plist/>" (request, empty)
checkin_request-dump_example =
    checkin_request-dump dumper encoder decoder "<plist/>" request [] empty

command_and_report_results_request-dump_example :
    command_and_report_results_request (dump dumper) unmarshal "<report/>" (request, ([], empty))
    ≡ (ok (some "<lock/>"), (request, ("<report/>" ∷ [], empty)))
unfolding command_and_report_results_request decode_command_results
command_and_report_results_request-dump_example =
    command_and_report_results_request-dump dumper unmarshal "<report/>"
      (record (results "a" "Acknowledged") { raw = "<report/>" }) request [] empty refl
