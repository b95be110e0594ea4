-- ===== src/Api/Codes.antt =====
-- What the status code of api/api.go says of a result, and the codes of the key-value backend.
use nanomdm.Common.{
  ℕ, String, ◌≡◌, refl, ◌↔◌, inl, inr, Bool, false, ◌||◌, Option, none, some, List, [], ◌∷◌, arith,
  All, Bool-cases,
}
use nanomdm.Common.Fault.{Error}
use nanomdm.Mdm.Command.{Command}
use nanomdm.Common.GoMap.{GoMap}
use nanomdm.Api.{
  ApiResult, EnrollmentResult, PushEnqueuer, CommandEnqueuer, start, add_id_errors, is_error,
  is_failed, count_errors, code, do_enqueue, enqueue_step, push_step, is_nil, enqueue_with_push,
}

-- no error in the entry of an enrollment
abbrev pub IsClean : String × EnrollmentResult → Type 0
IsClean e = is_failed e.1 ≡ false

pub count_errors-clean : (m : GoMap EnrollmentResult) → All IsClean m → count_errors m ≡ 0
count_errors-clean [] h = refl
count_errors-clean (e ∷ m) h = ground (arith, count_errors-clean m h.1, h.0)

pub IsClean-count_errors : (m : GoMap EnrollmentResult) → count_errors m ≡ 0 → All IsClean m
IsClean-count_errors [] h = tt
IsClean-count_errors (e ∷ m) h = elim (Bool-cases (is_failed e.1)) [
  | inl b ↦ absurd (ground (arith, b, h))
  | inr b ↦ (b, IsClean-count_errors m (ground (arith, b, h)))
]

-- The code is 200 exactly for a result with no error in it, neither at the top nor of an enrollment.
pub code-success :
    (r : ApiResult) (n : ℕ)
    → (code r n ≡ 200)
      ↔ (((is_error r.push_error || is_error r.enqueue_error) ≡ false) × All IsClean r.status)
unfolding code
code-success r n = (
  (λ h. elim (Bool-cases (is_error r.push_error || is_error r.enqueue_error)) [
    | inl t ↦ absurd (ground (arith, t, h))
    | inr t ↦ (t, IsClean-count_errors r.status (ground (arith, t, h)))
  ]),
  (λ h. ground (arith, h.0, count_errors-clean r.status h.1)),
)

module _ {S : Type 0} (pe : PushEnqueuer S) where
  -- Where the store returns an error for an enqueue, the code is 500, the store is left the way
  -- the enqueue left it, whatever the pusher is, and the result holds the error and the errors by
  -- enrollment.
  enqueue_with_push-enqueue_error :
      (enqueue : CommandEnqueuer S) (cmd : Command) (ids : List String) (no_push : Bool)
      (errs : GoMap (Option Error)) (e : Error) (s s' : S)
      → pe.store ≡ some enqueue
      → enqueue ids cmd s ≡ ((errs, some e), s')
      → (r : ApiResult) × (enqueue_with_push pe (some cmd) ids no_push s ≡ ((r, 500, none), s'))
        × (r.enqueue_error ≡ some e)
        × (r.status ≡ add_id_errors errs [])
  unfolding enqueue_with_push enqueue_step push_step is_nil do_enqueue code
  enqueue_with_push-enqueue_error enqueue cmd ids no_push errs e s s' store failed =
      let r : ApiResult = record (start (no_push || pe.no_push)) {
        command_uuid = cmd.command_uuid;
        request_type = cmd.request_type;
        enqueue_error = some e;
        status = add_id_errors errs [];
      } in
      (
        r,
        elim (Bool-cases no_push) [
          | inl t ↦ rw (store, failed, t) refl
          | inr f ↦ elim (Bool-cases pe.no_push) [
            | inl t ↦ rw (store, failed, f, t) refl
            | inr u ↦ rw (store, failed, f, u) refl
          ]
        ],
        refl,
        refl,
      )
