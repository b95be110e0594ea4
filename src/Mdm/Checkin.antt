-- ===== src/Mdm/Checkin.antt =====
-- mdm/checkin.go: the check-in messages, their decoding and their validation. The plist decoder
-- (github.com/micromdm/plist) is a parameter.
use nanomdm.Common.{String, ◌&&◌, Option, none, some, Bool, true, false, ◌==◌, ◌^^◌, if◌then◌else◌}
use nanomdm.Common.Fault.{Result, ok, err, fault, wrap, parse_error, unrecognized_message_type}
use nanomdm.Common.Fault.{◌>>=◌}
use nanomdm.Mdm.Enroll.{Enrollment}

pub record Authenticate : Type 0 where
  pub enrollment : Enrollment
  pub message_type : String
  pub topic : String
  pub raw : String
  pub serial_number : String

-- mdm.Push, which `TokenUpdate` embeds
pub record Push : Type 0 where
  pub topic : String
  pub push_magic : String
  pub token : String

pub record TokenUpdate : Type 0 where
  pub enrollment : Enrollment
  pub message_type : String
  pub push : Push
  pub unlock_token : String
  pub raw : String

pub record CheckOut : Type 0 where
  pub enrollment : Enrollment
  pub message_type : String
  pub raw : String

pub record UserAuthenticate : Type 0 where
  pub enrollment : Enrollment
  pub message_type : String
  pub digest_response : String
  pub raw : String

pub record BootstrapToken : Type 0 where
  pub bootstrap_token : String

pub record SetBootstrapToken : Type 0 where
  pub enrollment : Enrollment
  pub message_type : String
  pub bootstrap_token : BootstrapToken
  pub raw : String

pub record GetBootstrapToken : Type 0 where
  pub enrollment : Enrollment
  pub message_type : String
  pub raw : String

pub record DeclarativeManagement : Type 0 where
  pub enrollment : Enrollment
  pub message_type : String
  pub content : String
  pub endpoint : String
  pub raw : String

pub record TokenParameters : Type 0 where
  pub phone_udid : String
  pub security_token : String
  pub watch_udid : String

pub record GetTokenResponse : Type 0 where
  pub token_data : String

pub record GetToken : Type 0 where
  pub enrollment : Enrollment
  pub message_type : String
  pub token_service_type : String
  pub token_parameters : Option TokenParameters
  pub raw : String

is_nil {ℓ} : {A : Type ℓ} → Option A → Bool
is_nil none = true
is_nil (some _) = false

-- GetToken.Validate; the receiver may be nil
unfoldable pub validate_get_token : Option GetToken → Result (Unit {0})
unfolding is_nil
validate_get_token none = err (fault "nil GetToken")
validate_get_token (some m) =
    if m.token_service_type == ""
    then err (fault "empty GetToken TokenServiceType")
    else if m.token_service_type == "com.apple.watch.pairing" && is_nil m.token_parameters
    then err (fault ("nil TokenParameters for GetToken: " ^^ m.token_service_type))
    else ok tt

-- what the `interface{}` of a decoded check-in message holds
pub data Checkin : Type 0 where
  authenticate : Authenticate → Checkin
  token_update : TokenUpdate → Checkin
  check_out : CheckOut → Checkin
  set_bootstrap_token : SetBootstrapToken → Checkin
  get_bootstrap_token : GetBootstrapToken → Checkin
  user_authenticate : UserAuthenticate → Checkin
  declarative_management : DeclarativeManagement → Checkin
  get_token : GetToken → Checkin

abbrev pub no_enrollment : Enrollment
no_enrollment = record {
  udid = "";
  user_id = "";
  user_short_name = "";
  user_long_name = "";
  enrollment_id = "";
  enrollment_user_id = "";
}

-- newCheckinMessageForType: a message with only its `Raw` set, by the name of its type
unfoldable pub new_checkin_message_for_type : String → String → Option Checkin
new_checkin_message_for_type t raw =
    let e = no_enrollment in
    if t == "Authenticate"
    then some (
        authenticate
          (record { enrollment = e; message_type = ""; topic = ""; raw = raw; serial_number = "" }))
    else if t == "TokenUpdate"
    then some (
        token_update (record {
          enrollment = e;
          message_type = "";
          push = record { topic = ""; push_magic = ""; token = "" };
          unlock_token = "";
          raw = raw;
        }))
    else if t == "CheckOut"
    then some (check_out (record { enrollment = e; message_type = ""; raw = raw }))
    else if t == "SetBootstrapToken"
    then some (
        set_bootstrap_token (record {
          enrollment = e;
          message_type = "";
          bootstrap_token = record { bootstrap_token = "" };
          raw = raw;
        }))
    else if t == "GetBootstrapToken"
    then some (get_bootstrap_token (record { enrollment = e; message_type = ""; raw = raw }))
    else if t == "UserAuthenticate"
    then some (
        user_authenticate
          (record { enrollment = e; message_type = ""; digest_response = ""; raw = raw }))
    else if t == "DeclarativeManagement"
    then some (
        declarative_management
          (record { enrollment = e; message_type = ""; content = ""; endpoint = ""; raw = raw }))
    else if t == "GetToken"
    then some (
        get_token (record {
          enrollment = e;
          message_type = "";
          token_service_type = "";
          token_parameters = none;
          raw = raw;
        }))
    else none

-- The plist decoder: a document is parsed once, and its values are read into what `UnmarshalPlist`
-- passes to the function that it is given.
pub record Plist : Type 1 where
  pub Document : Type 0
  pub parse : String → Result Document
  pub read_type : Document → Result String
  pub read_message : Document → Checkin → Result Checkin

fill_in : (p : Plist) → p.Document → String → Option Checkin → Result Checkin
fill_in p doc t none = err (wrap t unrecognized_message_type)
fill_in p doc t (some m) = p.read_message doc m

-- `&ParseError{Err: err, Content: raw}`
abbrev pub as_parse_error {ℓ} : {A : Type ℓ} → String → Result A → Result A
as_parse_error raw (ok a) = ok a
as_parse_error raw (err e) = err (parse_error e raw)

module _ (p : Plist) where
  -- checkinUnmarshaller.UnmarshalPlist, which leaves its message in the unmarshaller
  unmarshal_plist : String → p.Document → Result Checkin
  unmarshal_plist raw doc =
      p.read_type doc >>= λ t. fill_in p doc t (new_checkin_message_for_type t raw)

  -- DecodeCheckin
  unfoldable pub decode_checkin : String → Result Checkin
  unfolding unmarshal_plist fill_in
  decode_checkin raw = as_parse_error raw (p.parse raw >>= unmarshal_plist raw)
