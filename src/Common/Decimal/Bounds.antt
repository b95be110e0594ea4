-- ===== src/Common/Decimal/Bounds.antt =====
-- Numbers below 2^63 survive strconv.Itoa and strconv.Atoi.
use Prim.Native.Nat.{◌*◌, ◌/◌, ◌%◌, ◌^◌}
use Prim.Native.Char.{Char, code}
use Prim.Native.String.{◌∷◌, slice}
use native.Mathlib.Nat.{pow-suc}
use text.Mathlib.TextLemmas.{append_assoc, cons-append, nil-append, append-nil, cons-ne-nil}
use native.Mathlib.Decide.{dec_lt}
use mathlib.Core.Path.{subst}
use nanomdm.Common.{
  ◌≢◌, ◌-◌, ne_refl, ℕ, zero, suc, ◌+◌, ◌<◌, ◌≤◌, String, ◌≡◌, refl, ap, ◌∙◌, sym, ◌⊎◌, inl, inr,
  true, false, some, ◌^^◌, ltb, eqb, arith,
}
use nanomdm.Common.Decimal.{
  word, half, atoi_fails, digits_value, magnitude, positive, atoi, digits, itoa,
}

abbrev digit : ℕ → String
digit n = slice "0123456789" n (suc n)

digit_char : (n : ℕ) → n < 10 → (ch : Char) × (digit n ≡ ch ∷ "") × (code ch ≡ 48 + n)
digit_char zero lt = ("0", refl, refl)
digit_char (suc zero) lt = ("1", refl, refl)
digit_char (suc (suc zero)) lt = ("2", refl, refl)
digit_char (suc (suc (suc zero))) lt = ("3", refl, refl)
digit_char (suc (suc (suc (suc zero)))) lt = ("4", refl, refl)
digit_char (suc (suc (suc (suc (suc zero))))) lt = ("5", refl, refl)
digit_char (suc (suc (suc (suc (suc (suc zero)))))) lt = ("6", refl, refl)
digit_char (suc (suc (suc (suc (suc (suc (suc zero))))))) lt = ("7", refl, refl)
digit_char (suc (suc (suc (suc (suc (suc (suc (suc zero)))))))) lt = ("8", refl, refl)
digit_char (suc (suc (suc (suc (suc (suc (suc (suc (suc zero))))))))) lt = ("9", refl, refl)
digit_char (suc (suc (suc (suc (suc (suc (suc (suc (suc (suc n)))))))))) lt = absurd (omega arith)

digits_value-cons :
    (ch : Char) (m n : ℕ) (rest : String)
    → code ch ≡ 48 + n
    → n < 10
    → m * 10 + n < word
    → digits_value m (ch ∷ rest) ≡ digits_value (m * 10 + n) rest
digits_value-cons ch m n rest e lt small = ground (arith, e)

digits_value-digit :
    (m n k : ℕ) (rest : String)
    → n < 10
    → m * 10 + n ≡ k
    → k < word
    → digits_value m (digit n ^^ rest) ≡ digits_value k rest
digits_value-digit m n k rest lt e small =
    let (ch, one, is_digit) = digit_char n lt in
    rw (one, cons-append ch "" rest, nil-append rest, sym e)
      (digits_value-cons ch m n rest is_digit lt (omega arith))

-- the two branches of one round
digits_last : (fuel n : ℕ) → n < 10 → digits (suc fuel) n ≡ digit n
digits_last fuel n lt = ground arith

digits_more : (fuel n : ℕ) → 10 ≤ n → digits (suc fuel) n ≡ digits fuel (n / 10) ^^ digit (n % 10)
digits_more fuel n le = ground arith

below_tenth : (fuel n : ℕ) → n < 10 ^ suc fuel → n / 10 < 10 ^ fuel
below_tenth fuel n lt = ground (arith, pow-suc 10 fuel)

-- reading the digits of `n` and what follows them goes on from `n`
digits_value-digits :
    (fuel n : ℕ) (rest : String)
    → n < 10 ^ fuel
    → n < word
    → digits_value 0 (digits fuel n ^^ rest) ≡ digits_value n rest
digits_value-digits zero n rest lt small =
    rw (nil-append rest) (ap (λ (k : ℕ). digits_value k rest) {x = 0} {y = n} (omega arith))
digits_value-digits (suc fuel) n rest lt small = elim (dec_lt n 10) [
  | yes t ↦ rw (digits_last fuel n t) (digits_value-digit 0 n n rest t (omega arith) small)
  | no f ↦
      rw
        (
          digits_more fuel n (omega arith),
          append_assoc (digits fuel (n / 10)) (digit (n % 10)) rest,
        )
        (digits_value-digits fuel (n / 10) (digit (n % 10) ^^ rest) (below_tenth fuel n lt)
            (omega arith)
          ∙ digits_value-digit (n / 10) (n % 10) n rest (omega arith) (omega arith) small)
]

ltb-true : (m n : ℕ) → m < n → ltb m n ≡ true
ltb-true m n lt = ground arith

ltb-none : (m n : ℕ) → n ≤ m → ltb m n ≡ false
ltb-none m n le = ground arith

eqb-false : (m n : ℕ) → n < m → eqb m n ≡ false
eqb-false m n lt = ground arith

-- a text whose first character is a digit
abbrev IsNumeral : String → Type 0
IsNumeral t = (ch : Char) × (s : String) × (t ≡ ch ∷ s) × (47 < code ch)

digit-IsNumeral : (n : ℕ) → n < 10 → IsNumeral (digit n)
digit-IsNumeral n lt = let (ch, one, e) = digit_char n lt in (ch, "", one, omega arith)

append-IsNumeral : (t rest : String) → IsNumeral t → IsNumeral (t ^^ rest)
append-IsNumeral t rest (ch, s, e, lt) =
    (ch, s ^^ rest, ap (λ (k : String). k ^^ rest) e ∙ cons-append ch s rest, lt)

more-IsNumeral :
    (fuel n : ℕ)
    → ((m : ℕ) → IsNumeral (digits fuel m)) ⊎ (fuel ≡ 0)
    → IsNumeral (digits (suc fuel) n)
more-IsNumeral fuel n before = elim (dec_lt n 10) [
  | yes t ↦ subst IsNumeral (sym (digits_last fuel n t)) (digit-IsNumeral n t)
  | no f ↦ elim before [
    | inl ih ↦
        subst IsNumeral (sym (digits_more fuel n (omega arith)))
          (append-IsNumeral (digits fuel (n / 10)) (digit (n % 10)) (ih (n / 10)))
    | inr none_left ↦
        subst IsNumeral
          (sym (
            digits_more fuel n (omega arith)
            ∙ (ap (λ (k : ℕ). digits k (n / 10) ^^ digit (n % 10)) none_left
                ∙ nil-append (digit (n % 10)))))
          (digit-IsNumeral (n % 10) (omega arith))
  ]
]

digits-IsNumeral : (fuel n : ℕ) → IsNumeral (digits (suc fuel) n)
digits-IsNumeral zero n = more-IsNumeral 0 n (inr refl)
digits-IsNumeral (suc fuel) n = more-IsNumeral (suc fuel) n (inl (digits-IsNumeral fuel))

positive-small : (n : ℕ) → n < half → positive (some n) ≡ n
positive-small n lt = omega arith

magnitude-numeral : (ch : Char) (s : String) → magnitude (ch ∷ s) ≡ digits_value 0 (ch ∷ s)
magnitude-numeral ch s = rw (ne_refl (ch ∷ s) "" (cons-ne-nil ch s)) refl

-- what Itoa prints starts with a digit and has the number's value
magnitude-itoa :
    (n : ℕ)
    → n < half
    → (ch : Char) × (s : String) × (itoa n ≡ ch ∷ s)
      × (47 < code ch)
      × (magnitude (ch ∷ s) ≡ some n)
magnitude-itoa n lt =
    let (ch, s, e, digit) = digits-IsNumeral 19 n in
    (
      ch,
      s,
      rw (ltb-true n half lt) e,
      digit,
      magnitude-numeral ch s
          ∙ (ap (digits_value 0) (sym e ∙ sym (append-nil (digits 20 n)))
              ∙ digits_value-digits 20 n "" (omega arith) (omega arith)),
    )

-- Atoi reads back what Itoa prints, for every number that an int64 can hold.
pub atoi-itoa : (n : ℕ) → n < half → atoi (itoa n) ≡ n
atoi-itoa n lt =
    let (ch, s, printed, digit, read) = magnitude-itoa n lt in
    ap atoi printed
    ∙ rw (eqb-false (code ch) 45 (omega arith), eqb-false (code ch) 43 (omega arith), read)
        (positive-small n lt)

pub atoi_fails-itoa : (n : ℕ) → n < half → atoi_fails (itoa n) ≡ false
atoi_fails-itoa n lt =
    let (ch, s, printed, digit, read) = magnitude-itoa n lt in
    ap atoi_fails printed
    ∙ rw (eqb-false (code ch) 45 (omega arith), eqb-false (code ch) 43 (omega arith), read)
        (ltb-none (half - 1) n (omega arith))

pub itoa-next : (n : ℕ) → n + 1 < half → itoa n ≢ itoa (n + 1)
itoa-next n lt e =
    let same : n ≡ n + 1 = sym (atoi-itoa n (omega arith)) ∙ (ap atoi e ∙ atoi-itoa (n + 1) lt) in
    absurd (omega arith)
