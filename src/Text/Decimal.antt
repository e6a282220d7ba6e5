-- ===== src/Text/Decimal.antt =====
-- The decimal text that fmt prints of a `uint64` and strconv.ParseUint, which reads it.
use gitopia_storage.Prelude.{
  ℕ, zero, suc, ◌+◌, ◌*◌, ◌/◌, ◌%◌, ◌^◌, ◌≤◌, ◌<◌, ◌≡◌, ◌≢◌, refl, arith, ap, ◌∙◌, true, some, [],
  ◌∷◌, All, lt→ltb, ◌==◌, Bool-cases, inl, inr,
}
use gitopia_storage.Text.{Bytes, digit, parse_digits, parse_uint, in_range}
use gitopia_storage.Events.Paths.{decimal, decimal_digits}

abbrev pub Digit : ℕ → Type 0
Digit c = (48 ≤ c) × (c ≤ 57)

digits-Digit :
    (fuel n : ℕ) (shown : Bytes) → All Digit shown → All Digit (decimal_digits fuel n shown)
unfolding decimal_digits
digits-Digit zero n shown h = h
digits-Digit (suc fuel) n shown h = elim (Bool-cases (n / 10 == 0)) [
  | inl e ↦ rw (e) ((omega arith, omega arith), h)
  | inr e ↦
      rw (e) (digits-Digit fuel (n / 10) ((48 + n % 10) ∷ shown) ((omega arith, omega arith), h))
]

pub decimal-Digit : (n : ℕ) → All Digit (decimal n)
unfolding decimal
decimal-Digit n = digits-Digit 20 n [] tt

digit-true : (n : ℕ) → digit (48 + n % 10) ≡ true
unfolding digit
digit-true n = ground arith

tenth-lt : (n p : ℕ) → n < p * 10 → n / 10 < p
tenth-lt n p h = omega (arith, h)

append-digits : (fuel n : ℕ) (c : ℕ) (shown : Bytes) → decimal_digits fuel n (c ∷ shown) ≢ []
unfolding decimal_digits
append-digits zero n c shown = λ e. ground (arith, e)
append-digits (suc fuel) n c shown = elim (Bool-cases (n / 10 == 0)) [
  | inl z ↦ rw (z) λ e. ground (arith, e)
  | inr z ↦ rw (z) (append-digits fuel (n / 10) (48 + n % 10) (c ∷ shown))
]

digits-nonempty : (fuel n : ℕ) (shown : Bytes) → decimal_digits (suc fuel) n shown ≢ []
unfolding decimal_digits
digits-nonempty fuel n shown = elim (Bool-cases (n / 10 == 0)) [
  | inl z ↦ rw (z) λ e. ground (arith, e)
  | inr z ↦ rw (z) (append-digits fuel (n / 10) (48 + n % 10) shown)
]

step-digit :
    (m n : ℕ) (shown : Bytes)
    → parse_digits m ((48 + n % 10) ∷ shown) ≡ parse_digits (m * 10 + n % 10) shown
unfolding parse_digits digit
step-digit m n shown = rw (digit-true n) (ap (λ k. parse_digits k shown) (omega arith))

-- the numbers of so many digits
abbrev room : ℕ → ℕ
room zero = 1
room (suc fuel) = room fuel * 10

digits-parse :
    (fuel n : ℕ) (shown : Bytes)
    → n < room fuel
    → parse_digits 0 (decimal_digits fuel n shown) ≡ parse_digits n shown
unfolding decimal_digits
digits-parse zero n shown h = ap (λ k. parse_digits k shown) (omega (arith, h))
digits-parse (suc fuel) n shown h = elim (Bool-cases (n / 10 == 0)) [
  | inl e ↦ rw (e) (step-digit 0 n shown ∙ ap (λ k. parse_digits k shown) (ground (arith, e)))
  | inr e ↦ rw (e) (
      digits-parse fuel (n / 10) ((48 + n % 10) ∷ shown) (tenth-lt n (room fuel) h)
      ∙ step-digit (n / 10) n shown
      ∙ ap (λ k. parse_digits k shown) (omega arith))
]

parse_uint-digits :
    (s : Bytes) (n : ℕ) → s ≢ [] → parse_digits 0 s ≡ some n → n < 2 ^ 64 → parse_uint s ≡ some n
unfolding parse_uint
parse_uint-digits [] n h k l = absurd (h refl)
parse_uint-digits (c ∷ s) n h k l = ap in_range k ∙ rw (lt→ltb n (2 ^ 64) l) refl

-- Reading the decimal text of a `uint64` gives the number back.
pub parse_uint-decimal : (n : ℕ) → n < 2 ^ 64 → parse_uint (decimal n) ≡ some n
unfolding decimal parse_digits
parse_uint-decimal n h =
    parse_uint-digits (decimal_digits 20 n []) n (digits-nonempty 19 n [])
      (digits-parse 20 n [] (omega (arith, h))) h
