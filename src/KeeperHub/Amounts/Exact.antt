-- ===== src/KeeperHub/Amounts/Exact.antt =====
-- A decimal text that is sent stands for the amount in base units, exactly.
use Prim.Native.Char.{code}
use Prim.Native.String.{String}
use Prim.Native.Nat.{◌*◌, ◌/◌, ◌%◌, ◌^◌}
use native.Mathlib.Nat.{mod-lt, div-add-mod', div-le_self}
use nexus_vector_keeperhub.Prelude.{
  ℕ, zero, suc, ◌+◌, ◌-◌, ◌≤◌, ◌<◌, ◌≡◌, refl, sym, ap, ◌∙◌, inl, inr, true, false, ◌&&◌, ◌==◌, ltb,
  nat_eq, arith, eq_iff, if◌then◌else◌, Bool-cases,
}
use nexus_vector_keeperhub.Errors.{ok}
use nexus_vector_keeperhub.KeeperHub.Amounts.{
  digit_char, padded, decimal, rstrip, amount_base_units_to_decimal_string,
}

-- The base units that a text stands for, with so many places after the point: what follows the
-- point, and what stands before it.
abbrev pub fraction : ℕ → ℕ → String → ℕ
fraction places units String.[] = units * 10 ^ places
fraction zero units (String.◌∷◌ c s) = units
fraction (suc places) units (String.◌∷◌ c s) = fraction places (units * 10 + (code c - 48)) s

abbrev pub base_units : ℕ → ℕ → String → ℕ
base_units places units String.[] = units * 10 ^ places
base_units places units (String.◌∷◌ c s) =
    if nat_eq (code c) b'.'
    then fraction places units s
    else base_units places (units * 10 + (code c - 48)) s

code-digit_char : (d : ℕ) → d < 10 → code (digit_char d) ≡ d + 48
unfolding digit_char
code-digit_char zero h = refl
code-digit_char (suc zero) h = refl
code-digit_char (suc (suc zero)) h = refl
code-digit_char (suc (suc (suc zero))) h = refl
code-digit_char (suc (suc (suc (suc zero)))) h = refl
code-digit_char (suc (suc (suc (suc (suc zero))))) h = refl
code-digit_char (suc (suc (suc (suc (suc (suc zero)))))) h = refl
code-digit_char (suc (suc (suc (suc (suc (suc (suc zero))))))) h = refl
code-digit_char (suc (suc (suc (suc (suc (suc (suc (suc zero)))))))) h = refl
code-digit_char (suc (suc (suc (suc (suc (suc (suc (suc (suc zero))))))))) h = refl
code-digit_char (suc (suc (suc (suc (suc (suc (suc (suc (suc (suc d)))))))))) h =
    absurd (omega (arith, h))

digit-below : (n : ℕ) → n % 10 < 10
digit-below n = omega arith

digits : (n : ℕ) → n / 10 * 10 + n % 10 ≡ n
digits n = omega arith

small_enough : (fuel n : ℕ) → n < suc fuel → ltb n 10 ≡ false → n / 10 < fuel
small_enough fuel n h long = let big : 10 ≤ n = ground (arith, long) in omega (arith, h, big)

power : (p : ℕ) → 10 ^ suc p ≡ 10 * 10 ^ p
power p = omega arith

shift : (units p : ℕ) → units * 10 * p ≡ units * (10 * p)
shift units p = omega arith

-- Zeros at the end do not count.
fraction-rstrip :
    (places units : ℕ) (s : String) → fraction places units (rstrip "0" s) ≡ fraction places units s
unfolding rstrip
fraction-rstrip places units String.[] = refl
fraction-rstrip zero units (String.◌∷◌ c s) =
    elim (Bool-cases (rstrip "0" s == "" && nat_eq (code c) (code "0"))) [
      | inl dropped ↦ rw dropped (omega arith)
      | inr kept ↦ rw kept refl
    ]
fraction-rstrip (suc places) units (String.◌∷◌ c s) =
    let rest = fraction-rstrip places (units * 10 + (code c - 48)) s in
    elim (Bool-cases (rstrip "0" s == "" && nat_eq (code c) (code "0"))) [
      | inr kept ↦ rw kept rest
      | inl dropped ↦
          let empty : rstrip "0" s ≡ "" = ground (arith, dropped, eq_iff (rstrip "0" s) "") in
          let zero_digit : code c ≡ 48 = ground (arith, dropped) in
          let units_same : units * 10 + (code c - 48) ≡ units * 10 = omega (arith, zero_digit) in
          rw dropped (
            ap (λ p. units * p) (power places)
            ∙ sym (shift units (10 ^ places))
            ∙ ap (λ n. n * 10 ^ places) (sym units_same)
            ∙ ap (fraction places (units * 10 + (code c - 48))) (sym empty)
            ∙ rest)
    ]

-- One digit, read before and after the point.
base_units-digit :
    (places units d : ℕ) (rest : String)
    → d < 10
    → base_units places units (String.◌∷◌ (digit_char d) rest)
      ≡ base_units places (units * 10 + d) rest
base_units-digit places units d rest h =
    let read_digit = code-digit_char d h in
    elim (Bool-cases (nat_eq (code (digit_char d)) (code "."))) [
      | inl point ↦ absurd (ground (arith, point, read_digit))
      | inr digit ↦
          rw digit (ap (λ m. base_units places (units * 10 + m) rest) (omega (arith, read_digit)))
    ]

fraction-digit :
    (places units d : ℕ) (rest : String)
    → d < 10
    → fraction (suc places) units (String.◌∷◌ (digit_char d) rest)
      ≡ fraction places (units * 10 + d) rest
fraction-digit places units d rest h =
    ap (λ m. fraction places (units * 10 + m) rest) (omega (arith, code-digit_char d h))

shifted : (units p n : ℕ) → (units * p + n / 10) * 10 + n % 10 ≡ units * (10 * p) + n
shifted units p n = omega (arith, digits n)

-- Padded digits, read after the point.
fraction-padded :
    (width places total units n : ℕ) (rest : String)
    → total ≡ width + places
    → n < 10 ^ width
    → fraction total units (padded width n rest) ≡ fraction places (units * 10 ^ width + n) rest
unfolding padded
fraction-padded zero places total units n rest t h =
    ap (λ m. fraction m units rest) (omega (arith, t))
    ∙ ap (λ m. fraction places m rest) (omega (arith, h))
fraction-padded (suc width) places total units n rest t h =
    let d = n % 10 in
    let small : n / 10 < 10 ^ width = omega (arith, h) in
    fraction-padded width (suc places) total units (n / 10) (String.◌∷◌ (digit_char d) rest)
      (omega (arith, t)) small
    ∙ fraction-digit places (units * 10 ^ width + n / 10) d rest (digit-below n)
    ∙ ap (λ m. fraction places m rest)
        (shifted units (10 ^ width) n ∙ ap (λ p. units * p + n) (sym (power width)))

decimal_short :
    (fuel n : ℕ) (rest : String)
    → ltb n 10 ≡ true
    → decimal (suc fuel) n rest ≡ String.◌∷◌ (digit_char n) rest
unfolding decimal
decimal_short fuel n rest h = ground (arith, h)

decimal_long :
    (fuel n : ℕ) (rest : String)
    → ltb n 10 ≡ false
    → decimal (suc fuel) n rest ≡ decimal fuel (n / 10) (String.◌∷◌ (digit_char (n % 10)) rest)
unfolding decimal
decimal_long fuel n rest h = ground (arith, h)

-- The digits of a number, read before the point.
base_units-decimal :
    (fuel places n : ℕ) (rest : String)
    → n < fuel
    → base_units places 0 (decimal fuel n rest) ≡ base_units places n rest
unfolding decimal
base_units-decimal zero places n rest h = absurd (omega (arith, h))
base_units-decimal (suc fuel) places n rest h = elim (Bool-cases (ltb n 10)) [
  | inl short ↦ rw (decimal_short fuel n rest short) (
      base_units-digit places 0 n rest (ground (arith, short))
      ∙ ap (λ m. base_units places m rest) (omega arith))
  | inr long ↦ rw (decimal_long fuel n rest long) (
      base_units-decimal fuel places (n / 10) (String.◌∷◌ (digit_char (n % 10)) rest)
        (small_enough fuel n h long)
      ∙ base_units-digit places (n / 10) (n % 10) rest (digit-below n)
      ∙ ap (λ m. base_units places m rest) (digits n))
]

power_positive : (p : ℕ) → 0 < 10 ^ p
power_positive zero = omega arith
power_positive (suc p) = omega (arith, power p, power_positive p)

quotient : (n p : ℕ) → n / 10 ^ p * 10 ^ p + n % 10 ^ p ≡ n
quotient n p = div-add-mod' n (10 ^ p)

quotient_small : (n p : ℕ) → n / 10 ^ p < suc n
quotient_small n p = omega (arith, div-le_self n (10 ^ p))

units_of_one : (n : ℕ) → n * 10 ^ 0 ≡ n
units_of_one n = omega arith

-- The text with a point.
pointed :
    (amount decimals : ℕ)
    → base_units decimals 0 (
        decimal
          (suc amount)
          (amount / 10 ^ decimals)
          (String.◌∷◌ "." (rstrip "0" (padded decimals (amount % 10 ^ decimals) ""))))
      ≡ amount
pointed amount decimals =
    let q = amount / 10 ^ decimals in
    let r = amount % 10 ^ decimals in
    base_units-decimal (suc amount) decimals q (String.◌∷◌ "." (rstrip "0" (padded decimals r "")))
      (quotient_small amount decimals)
    ∙ fraction-rstrip decimals q (padded decimals r "")
    ∙ fraction-padded decimals 0 decimals q r "" (omega arith)
        (mod-lt amount (power_positive decimals))
    ∙ units_of_one (q * 10 ^ decimals + r)
    ∙ quotient amount decimals

whole_only :
    (amount decimals : ℕ)
    → amount % 10 ^ decimals ≡ 0
    → base_units decimals 0 (decimal (suc amount) (amount / 10 ^ decimals) "") ≡ amount
whole_only amount decimals exact =
    base_units-decimal (suc amount) decimals (amount / 10 ^ decimals) ""
      (quotient_small amount decimals)
    ∙ omega (arith, quotient amount decimals, exact)

-- The text of an amount, read back with the same number of places, is the amount: nothing is rounded or
-- cut. The text is made for every positive amount and at most 36 places.
pub amount_exact :
    (amount decimals : ℕ)
    → 1 ≤ amount
    → decimals ≤ 36
    → (t : String) × (amount_base_units_to_decimal_string amount decimals ≡ ok t)
      × (base_units decimals 0 t ≡ amount)
unfolding amount_base_units_to_decimal_string
amount_exact amount decimals h k =
    let positive : ltb amount 1 ≡ false = ground (arith, h) in
    let few : ltb 36 decimals ≡ false = ground (arith, k) in
    elim (Bool-cases (nat_eq decimals 0)) [
      | inl none ↦
          let no_places : decimals ≡ 0 = ground (arith, none) in
          (
            decimal (suc amount) amount "",
            rw (positive, few, none) refl,
            base_units-decimal (suc amount) decimals amount "" (omega arith)
                ∙ ap (λ d. amount * 10 ^ d) no_places
                ∙ units_of_one amount,
          )
      | inr some_places ↦ elim (Bool-cases (nat_eq (amount % 10 ^ decimals) 0)) [
        | inl exact ↦ (
          decimal (suc amount) (amount / 10 ^ decimals) "",
          rw (positive, few, some_places, exact) refl,
          whole_only amount decimals (ground (arith, exact)),
        )
        | inr inexact ↦ (
          decimal (suc amount) (amount / 10 ^ decimals)
              (String.◌∷◌ "." (rstrip "0" (padded decimals (amount % 10 ^ decimals) ""))),
          rw (positive, few, some_places, inexact) refl,
          pointed amount decimals,
        )
      ]
    ]
