-- ===== src/Mdm/Enroll.antt =====
-- mdm/mdm.go and mdm/type.go: enrollments, the enrollment ID of a request, and how the identifiers
-- of a message resolve to a device and a user channel.
use nanomdm.Common.{
  ℕ, String, Bool, true, false, not, ◌&&◌, Option, none, some, ◌==◌, ltb, eqb, ◌^^◌, if◌then◌else◌,
}
use nanomdm.Common.Decimal.{itoa}
use nanomdm.Common.Fault.{Result, ok, err, fault}

pub record Enrollment : Type 0 where
  pub udid : String
  pub user_id : String
  pub user_short_name : String
  pub user_long_name : String
  pub enrollment_id : String
  pub enrollment_user_id : String

-- `EnrollType` is a `uint`, with these constants.
abbrev pub device : ℕ
device = 1

abbrev pub user : ℕ
user = 2

abbrev pub user_enrollment_device : ℕ
user_enrollment_device = 3

abbrev pub user_enrollment : ℕ
user_enrollment = 4

abbrev pub shared_ipad : ℕ
shared_ipad = 5

abbrev pub max_enroll_type : ℕ
max_enroll_type = 6

abbrev pub shared_ipad_user_id : String
shared_ipad_user_id = "FFFFFFFF-FFFF-FFFF-FFFF-FFFFFFFFFFFF"

-- EnrollType.Valid
unfoldable pub valid : ℕ → Bool
valid et = ltb 0 et && ltb et max_enroll_type

-- EnrollType.String
unfoldable pub type_name : ℕ → String
type_name et =
    if eqb et device
    then "Device"
    else if eqb et user
    then "User"
    else if eqb et user_enrollment_device
    then "User Enrollment (Device)"
    else if eqb et user_enrollment
    then "User Enrollment"
    else if eqb et shared_ipad
    then "Shared iPad"
    else "unknown enroll type value " ^^ itoa et

pub record EnrollId : Type 0 where
  pub type : ℕ
  pub id : String
  pub parent_id : String

-- EnrollID.Validate; the receiver may be nil
unfoldable pub validate : Option EnrollId → Result EnrollId
unfolding valid
validate none = err (fault "nil enrollment id")
validate (some eid) =
    if eid.id == ""
    then err (fault "empty enrollment id")
    else if not (valid eid.type)
    then err (fault "invalid enrollment id type")
    else ok eid

-- x509.Certificate, of which the program reads the DER bytes
pub record Certificate : Type 0 where
  pub raw : String

-- Request, without its `context.Context`. The embedded `EnrollID` is a pointer.
pub record Request : Type 0 where
  pub enroll_id : Option EnrollId
  pub certificate : Option Certificate
  pub params : Option (String → Option String)

-- A request whose `EnrollID` is set: what the stores are handed. They read `r.ID`, `r.Type` and
-- `r.ParentID`, which is a nil dereference in any other.
pub record Enrolled : Type 0 where
  pub enroll_id : EnrollId
  pub open enroll_id use {type, id, parent_id}
  pub certificate : Option Certificate

pub record ResolvedEnrollment : Type 0 where
  pub type : ℕ
  pub device_channel_id : String
  pub user_channel_id : String
  pub is_user_channel : Bool

-- ResolvedEnrollment.Validate
unfoldable pub validate_resolved : Option ResolvedEnrollment → Result ResolvedEnrollment
unfolding valid
validate_resolved none = err (fault "nil resolved enrollment")
validate_resolved (some r) =
    if r.device_channel_id == ""
    then err (fault "empty device channel id")
    else if not (valid r.type)
    then err (fault "invalid resolved type")
    else ok r

-- the branch of `Resolved` for a message with a UDID
resolved_udid : Enrollment → ResolvedEnrollment
resolved_udid e =
    if e.user_id == ""
    then record {
      type = device;
      device_channel_id = e.udid;
      user_channel_id = "";
      is_user_channel = false;
    }
    else if e.user_id == shared_ipad_user_id
    then record {
      type = shared_ipad;
      device_channel_id = e.udid;
      user_channel_id = e.user_short_name;
      is_user_channel = true;
    }
    else record {
      type = user;
      device_channel_id = e.udid;
      user_channel_id = e.user_id;
      is_user_channel = true;
    }

-- the branch for a message with an EnrollmentID and no UDID
resolved_enrollment_id : Enrollment → ResolvedEnrollment
resolved_enrollment_id e =
    if e.enrollment_user_id == ""
    then record {
      type = user_enrollment_device;
      device_channel_id = e.enrollment_id;
      user_channel_id = "";
      is_user_channel = false;
    }
    else record {
      type = user_enrollment;
      device_channel_id = e.enrollment_id;
      user_channel_id = e.enrollment_user_id;
      is_user_channel = true;
    }

-- Enrollment.Resolved; `none` is the nil result
unfoldable pub resolved : Enrollment → Option ResolvedEnrollment
unfolding resolved_udid resolved_enrollment_id
resolved e =
    if not (e.udid == "")
    then some (resolved_udid e)
    else if not (e.enrollment_id == "")
    then some (resolved_enrollment_id e)
    else none
