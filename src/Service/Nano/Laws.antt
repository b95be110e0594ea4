-- ===== src/Service/Nano/Laws.antt =====
-- The enrollment IDs of service.go.
use text.Mathlib.TextLemmas.{append-eq-nil_iff}
use nanomdm.Common.{
  String, ◌≡◌, refl, Bool, true, false, Option, none, some, arith, ◌==◌, ◌^^◌, ne_refl,
  if◌then◌else◌, not, ◌&&◌, ne_of_test, Bool-cases, inl, inr,
}
use nanomdm.Common.Fault.{Result, ok, err}
use nanomdm.Mdm.Enroll.{Enrollment, EnrollId, resolved, validate, valid, shared_ipad_user_id}
use nanomdm.Service.Nano.{normalize}
use nanomdm.CertAuth

append-ne : (a b : String) → (a == "") ≡ false → ((a ^^ b) == "") ≡ false
append-ne a b h =
    ne_refl (a ^^ b) "" (λ e. ne_of_test a "" h ((append-eq-nil_iff {p = a} {q = b}).0 e).0)

-- The ID under which the certificate middleware files an enrollment ID.
abbrev pub device_part : Option EnrollId → Option EnrollId
device_part none = none
device_part (some eid) = some (record {
  type = eid.type;
  id = if eid.parent_id == "" then eid.id else eid.parent_id;
  parent_id = "";
})

-- The certificate middleware and the service agree on the device of a message, for all its
-- identifiers: the middleware's ID is the parent of the service's ID where that is a user channel's,
-- and equal to it where it is a device's.
pub normalize-device_part : (e : Enrollment) → CertAuth.normalize e ≡ device_part (normalize e)
unfolding normalize CertAuth.normalize resolved
normalize-device_part e = elim (Bool-cases (e.udid == "")) [
  | inl d ↦ elim (Bool-cases (e.enrollment_id == "")) [
    | inl n ↦ rw (d, n) refl
    | inr y ↦ elim (Bool-cases (e.enrollment_user_id == "")) [
      | inl n ↦ rw (d, y, n) refl
      | inr u ↦ rw (d, y, u) (rw y refl)
    ]
  ]
  | inr d ↦ elim (Bool-cases (e.user_id == "")) [
    | inl n ↦ rw (d, n) refl
    | inr u ↦ elim (Bool-cases (e.user_id == shared_ipad_user_id)) [
      | inl i ↦ rw (d, u, i) (rw d refl)
      | inr o ↦ rw (d, u, o) (rw d refl)
    ]
  ]
]

abbrev pub is_ok : {A : Type 0} → Result A → Bool
is_ok (ok a) = true
is_ok (err x) = false

-- Exactly the messages with a UDID or an EnrollmentID get an enrollment ID that is valid, whatever
-- their other identifiers are.
normalize-valid :
    (e : Enrollment) → is_ok (validate (normalize e)) ≡ not (e.udid == "" && e.enrollment_id == "")
unfolding normalize resolved validate valid
normalize-valid e = ground (
  arith,
  append-ne e.udid (":" ^^ e.user_id),
  append-ne e.udid (":" ^^ e.user_short_name),
  append-ne e.enrollment_id (":" ^^ e.enrollment_user_id),
)
