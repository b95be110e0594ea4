-- ===== src/Common/Decimal.antt =====
-- strconv.Atoi and strconv.Itoa, which mdm/type.go and storage/kv/mdm.go write numbers with. A
-- Go `int` has 64 bits here, and is the number of its two's complement form.
pub mod Bounds
use Prim.Native.Nat.{◌*◌, ◌/◌, ◌%◌, ◌^◌, min}
use Prim.Native.Char.{code}
use Prim.Native.String.{[], ◌∷◌, slice}
use nanomdm.Common.{
  ℕ, zero, suc, ◌+◌, ◌-◌, String, Bool, true, Option, none, some, ◌&&◌, ◌==◌, ◌^^◌, ltb, eqb,
  if◌then◌else◌,
}

abbrev pub word : ℕ
word = 2 ^ 64

abbrev pub half : ℕ
half = 2 ^ 63

-- The value of digits after those that made `n`; `none` is a syntax error. The scan ends where the
-- value no longer fits 64 bits, whatever follows.
abbrev digits_value : ℕ → String → Option ℕ
digits_value n [] = some n
digits_value n (ch ∷ rest) =
    let c = code ch in
    let m = n * 10 + (c - 48) in
    let value = digits_value m rest in
    if ltb 47 c && ltb c 58 then (if ltb m word then value else some word) else none

abbrev magnitude : String → Option ℕ
magnitude s = if s == "" then none else digits_value 0 s

-- The int that an Atoi which reports an error returns too: 0, or the nearest bound.
abbrev positive : Option ℕ → ℕ
positive none = 0
positive (some n) = min n (half - 1)

abbrev negative : Option ℕ → ℕ
negative none = 0
negative (some n) = (word - min n half) % word

abbrev pub atoi : String → ℕ
atoi [] = 0
atoi (ch ∷ rest) =
    if eqb (code ch) 45
    then negative (magnitude rest)
    else if eqb (code ch) 43
    then positive (magnitude rest)
    else positive (magnitude (ch ∷ rest))

-- whether Atoi reports an error beside its int
abbrev positive_fails : Option ℕ → Bool
positive_fails none = true
positive_fails (some n) = ltb (half - 1) n

abbrev negative_fails : Option ℕ → Bool
negative_fails none = true
negative_fails (some n) = ltb half n

abbrev pub atoi_fails : String → Bool
atoi_fails [] = true
atoi_fails (ch ∷ rest) =
    if eqb (code ch) 45
    then negative_fails (magnitude rest)
    else if eqb (code ch) 43
    then positive_fails (magnitude rest)
    else positive_fails (magnitude (ch ∷ rest))

-- Twenty digits are more than 64 bits need.
abbrev digits : ℕ → ℕ → String
digits zero n = ""
digits (suc fuel) n =
    let before = digits fuel (n / 10) in
    let digit = slice "0123456789" (n % 10) (suc (n % 10)) in
    if ltb n 10 then digit else before ^^ digit

abbrev pub itoa : ℕ → String
itoa n = if ltb n half then digits 20 n else "-" ^^ digits 20 (word - n)
