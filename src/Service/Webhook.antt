-- ===== src/Service/Webhook.antt =====
-- service/webhook/service.go and event.go: a service that sends an event for each message. Encoding
-- an event (encoding/json), base64, the HTTP client (`Doer`, with the making of the request), the
-- clock and the event IDs from the context are fields of the struct.
pub mod Told
mod Tests
use nanomdm.Common.{ℕ, String, Option, none, some, ◌==◌, ◌^^◌, eqb, if◌then◌else◌}
use nanomdm.Common.Fault.{Error, Result, ok, err, fault, nil_dereference}
use nanomdm.Common.Exec.{Exec, pure, raise, lift, beside, ◌>>=◌, ◌>>◌}
use nanomdm.Mdm.Enroll.{Enrollment, EnrollId, Request, type_name}
use nanomdm.Mdm.Checkin.{
  Authenticate, TokenUpdate, CheckOut, UserAuthenticate, BootstrapToken, SetBootstrapToken,
  GetBootstrapToken, DeclarativeManagement, GetTokenResponse, GetToken,
}
use nanomdm.Mdm.Command.{Command, CommandResults}
use nanomdm.Service.{CheckinAndCommandService, Method}

-- IDs
pub record Ids : Type 0 where
  pub id : String
  pub parent_id : Option String
  pub type : String

-- CheckinEvent
pub record CheckinEvent : Type 0 where
  pub ids : Option Ids
  pub enrollment_id : Option String
  pub udid : Option String
  pub raw_payload : String
  pub token_update_tally : Option ℕ
  pub url_params : Option (String → Option String)

-- AcknowledgeEvent
pub record AcknowledgeEvent : Type 0 where
  pub ids : Option Ids
  pub enrollment_id : Option String
  pub udid : Option String
  pub status : String
  pub command_uuid : Option String
  pub raw_payload : String
  pub url_params : Option (String → Option String)

-- EventJson
pub record EventJson : Type 0 where
  pub topic : String
  pub created_at : String
  pub event_id : Option String
  pub checkin_event : Option CheckinEvent
  pub acknowledge_event : Option AcknowledgeEvent

-- The struct `Webhook`; `post` is what its `doer` answers to a body: the status code and its text.
pub record Webhook (S : Type 0) : Type 0 where
  pub marshal : EventJson → Result String
  pub post : String → Exec S (ℕ × String)
  pub encode_base64 : String → String
  pub store : Option (String → Exec S ℕ)
  pub now : S → String
  pub event_id : Option (S → String)

-- stringPtr
abbrev pub string_ptr : String → Option String
string_ptr s = if s == "" then none else some s

-- ids
abbrev pub ids : EnrollId → Ids
ids eid = record { id = eid.id; parent_id = string_ptr eid.parent_id; type = type_name eid.type }

-- `r.EnrollID` where it is dereferenced
abbrev pub dereferenced : Option EnrollId → Result EnrollId
dereferenced none = err nil_dereference
dereferenced (some eid) = ok eid

module _ {S : Type 0} (w : Webhook S) where
  -- `if w.eventIDFn != nil { ev.EventId = … }`
  abbrev pub event_id_of : Option (S → String) → S → Option String
  event_id_of none s = none
  event_id_of (some f) s = string_ptr (f s)

  abbrev pub checkin_event :
      String → EnrollId → Request → Enrollment → String → Option ℕ → S → EventJson
  checkin_event topic eid r e raw tally s = record {
    topic = topic;
    created_at = w.now s;
    event_id = event_id_of w.event_id s;
    checkin_event = some (record {
      ids = some (ids eid);
      enrollment_id = string_ptr e.enrollment_id;
      udid = string_ptr e.udid;
      raw_payload = w.encode_base64 raw;
      token_update_tally = tally;
      url_params = r.params;
    });
    acknowledge_event = none;
  }

  abbrev pub acknowledge_event : EnrollId → Request → CommandResults → S → EventJson
  acknowledge_event eid r m s = record {
    topic = "mdm.Connect";
    created_at = w.now s;
    event_id = event_id_of w.event_id s;
    checkin_event = none;
    acknowledge_event = some (record {
      ids = some (ids eid);
      enrollment_id = string_ptr m.enrollment.enrollment_id;
      udid = string_ptr m.enrollment.udid;
      status = m.status;
      command_uuid = string_ptr m.command_uuid;
      raw_payload = w.encode_base64 m.raw;
      url_params = r.params;
    });
  }

  -- send
  unfoldable pub send : EventJson → Exec S Unit
  send event = lift (w.marshal event) >>= λ body. w.post body >>= λ (code, status).
      if eqb code 200 then pure tt else raise (fault ("unexpected HTTP status: " ^^ status))

  -- the event of a check-in message, made and sent
  unfoldable pub send_checkin : String → Enrollment → String → Exec (Request × S) Unit
  send_checkin topic e raw (r, s) =
      (lift (dereferenced r.enroll_id) >>= λ eid.
      beside (send (checkin_event topic eid r e raw none s)))
        (r, s)

  tally_of : Option (String → Exec S ℕ) → String → Exec S (Option ℕ)
  tally_of none id = pure none
  tally_of (some retrieve) id = retrieve id >>= λ tally. pure (some tally)

  unfoldable pub token_update : Method S TokenUpdate Unit
  unfolding tally_of
  token_update m (r, s) =
      (lift (dereferenced r.enroll_id) >>= λ eid. beside (tally_of w.store eid.id) >>= λ tally.
      beside (send (checkin_event "mdm.TokenUpdate" eid r m.enrollment m.raw tally s)))
        (r, s)

  unfoldable pub command_and_report_results : Method S CommandResults (Option Command)
  command_and_report_results m (r, s) =
      (lift (dereferenced r.enroll_id) >>= λ eid.
      beside (send (acknowledge_event eid r m s)) >> pure none)
        (r, s)

  abbrev pub webhook : CheckinAndCommandService S
  webhook = record {
    authenticate = λ m. send_checkin "mdm.Authenticate" m.enrollment m.raw;
    token_update = token_update;
    check_out = λ m. send_checkin "mdm.CheckOut" m.enrollment m.raw;
    user_authenticate = λ m. send_checkin "mdm.UserAuthenticate" m.enrollment m.raw >> pure none;
    set_bootstrap_token = λ m. send_checkin "mdm.SetBootstrapToken" m.enrollment m.raw;
    get_bootstrap_token = λ m. send_checkin "mdm.GetBootstrapToken" m.enrollment m.raw >> pure none;
    declarative_management =
        λ m. send_checkin "mdm.DeclarativeManagement" m.enrollment m.raw >> pure none;
    get_token = λ m. send_checkin "mdm.GetToken" m.enrollment m.raw >> pure none;
    command_and_report_results = command_and_report_results;
  }
