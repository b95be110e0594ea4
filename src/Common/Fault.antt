-- ===== src/Common/Fault.antt =====
-- Go's `error` values, as far as the program tells them apart, and the results that carry them.
use Prim.Native.Nat.{ℕ}
use Prim.Native.String.{String}
use mathlib.Core.Bool.{Bool, true, false}

-- `wrap` is `fmt.Errorf` with `%w`, `flat` the same with `%s` or `%v`, `amended` the one with an
-- error of each (http/api/api.go); `status` is `service.HTTPStatusError`, `parse_error` is
-- `mdm.ParseError`; `fault` is any other error, by its text. `diverged`, `nil_dereference` and
-- `out_of_range` are no errors of the program: a loop that has used up its fuel, and panics. The
-- rest are the sentinels.
pub data Error : Type 0 where
  key_not_found device_channel_only : Error
  not_exist exist : Error
  no_cert_reuse no_cert_assoc missing_cert : Error
  unrecognized_message_type invalid_command_result invalid_command empty_command : Error
  fault : String → Error
  diverged nil_dereference out_of_range : Error
  wrap flat : String → Error → Error
  amended : Error → Error → Error
  status : ℕ → Error → Error
  parse_error : Error → String → Error

-- errors.Is(err, kv.ErrKeyNotFound): looks through what `Unwrap` shows
abbrev pub is_not_found : Error → Bool
is_not_found key_not_found = true
is_not_found (wrap _ e) = is_not_found e
is_not_found (amended e _) = is_not_found e
is_not_found (status _ e) = is_not_found e
is_not_found (parse_error e _) = is_not_found e
is_not_found _ = false

-- errors.Is(err, os.ErrNotExist)
abbrev pub is_not_exist : Error → Bool
is_not_exist not_exist = true
is_not_exist (wrap _ e) = is_not_exist e
is_not_exist (amended e _) = is_not_exist e
is_not_exist (status _ e) = is_not_exist e
is_not_exist (parse_error e _) = is_not_exist e
is_not_exist _ = false

pub data Result {ℓ} (A : Type ℓ) : Type ℓ where
  ok : A → Result A
  err : Error → Result A

infixl 5 ◌>>=◌
abbrev pub ◌>>=◌ {ℓ κ} : {A : Type ℓ} {B : Type κ} → Result A → (A → Result B) → Result B
ok a >>= f = f a
err e >>= f = err e
