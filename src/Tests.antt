-- ===== src/Tests.antt =====
-- The theorems about the main service, the decoders, the enrollments and the keys of the key-value
-- backend at concrete inputs, on stores in memory.
use text.Mathlib.Text.{starts_with}
use text.Mathlib.TextEquality.{starts_with_iff}
use nanomdm.Common.{
  ℕ, String, ◌≡◌, refl, none, some, [], ◌∷◌, All, arith, ne_of_test, inl, inr, sym, Bool-cases,
}
use nanomdm.Common.Fault.{ok}
use nanomdm.Bucket.Memory.{
  Memory, contents, bucket, bucket-IsReliable, txn_bucket-CommitsBody, at_number, empty, Assoc,
  with_prefix,
}
use nanomdm.Mdm.Enroll.{validate, resolved}
use nanomdm.Service.Nano
use nanomdm.Service.Nano.Laws.{normalize-device_part, device_part}
use nanomdm.Service.Nano.Delivery.{command_and_report_results-delivers}
use nanomdm.Kv.LinkedQueue.Shape.{IsQueue}
use nanomdm.Kv.CommandQueue.Tests.{
  kv, kv-IsReliable, dev, results, two_items, two_items-IsQueue, cells_of,
}
use nanomdm.Kv.Enrollments.{disable, kv_store}
use nanomdm.Kv.Enrollments.Laws.{disable-user_channel, ListsKeys, StartsWith}
use nanomdm.CertAuth
use nanomdm.CertAuth.{
  CertAuth, cert_auth, associate_for_new_enrollment, validate_or_associate_for_existing_enrollment,
}
use nanomdm.CertAuth.Tests.{enrollment, request}

computes : Unit {0}
unfolding resolved validate Nano.normalize CertAuth.normalize
computes = tt

normalize-device_part_example :
    CertAuth.normalize enrollment ≡ device_part (Nano.normalize enrollment)
normalize-device_part_example = normalize-device_part enrollment

device_valid : validate (Nano.normalize (results "a" "Acknowledged").enrollment) ≡ ok dev.enroll_id
unfolding computes
device_valid = refl

command_and_report_results-delivers_example :
    (s' : Memory) × (Nano.command_and_report_results
        (Nano.new_nano (kv_store kv 3))
        (results "a" "Acknowledged")
        (request none, two_items)
      ≡ (
        ok (some (record { command_uuid = "b"; request_type = "B"; raw = "<b/>" })),
        (
          record (request none) {
            enroll_id = Nano.normalize (results "a" "Acknowledged").enrollment;
          },
          s',
        ),
      ))
    × IsQueue (cells_of s') ("b" ∷ [])
command_and_report_results-delivers_example =
    command_and_report_results-delivers kv (contents 1) (contents 5) kv-IsReliable (request none)
      (results "a" "Acknowledged") dev.enroll_id "b" [] 3 two_items device_valid
      (ne_of_test "Acknowledged" "Idle" refl) (ne_of_test "Acknowledged" "NotNow" refl)
      (ne_of_test "a" "" refl) (omega arith) two_items-IsQueue
      ((ne_of_test "<b/>" "" refl, ne_of_test "B" "" refl), tt)

with_prefix-StartsWith : (p : String) (m : Assoc) → All (StartsWith p) (with_prefix p m)
with_prefix-StartsWith p [] = tt
with_prefix-StartsWith p ((j, v) ∷ m) = elim (Bool-cases (starts_with j p)) [
  | inl t ↦
      let (rest, e) = (starts_with_iff j p).0 t in rw t ((rest, sym e), with_prefix-StartsWith p m)
  | inr n ↦ rw n (with_prefix-StartsWith p m)
]

bucket-ListsKeys : (n : ℕ) → ListsKeys (bucket n)
bucket-ListsKeys n p s = (with_prefix p (s n), refl, with_prefix-StartsWith p (s n))

-- the device d with its user channel u
abbrev with_user : Memory
with_user = at_number 5 (("d.user_ch.u", "1") ∷ ("u.type", "User") ∷ []) empty

disable-user_channel_example :
    (s' : Memory) × (disable kv dev with_user ≡ (ok tt, s'))
    × ((contents 5).find s' "d.disabled" ≡ some "1")
    × ((contents 5).find s' "u.disabled" ≡ none)
disable-user_channel_example =
    disable-user_channel kv (contents 5) (bucket-IsReliable 5) (txn_bucket-CommitsBody 5)
      (bucket-ListsKeys 5) dev "u" with_user refl (ne_of_test "u" "d" refl)
      (ne_of_test "u" "d.user_ch." refl)
