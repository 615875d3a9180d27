-- ===== src/KeeperHub/Amounts.antt =====
-- src/nexus_vector/integrations/keeperhub_direct_execution.py: amounts in base units as the decimal
-- texts that the provider reads. A text is built from its last digit to its first.
pub mod Exact
use Prim.Native.Char.{Char, code}
use Prim.Native.String.{String}
use Prim.Native.Nat.{◌*◌, ◌/◌, ◌%◌, ◌^◌}
use nexus_vector_keeperhub.Prelude.{
  ℕ, zero, suc, Bool, true, false, ◌&&◌, ◌==◌, ltb, nat_eq, if◌then◌else◌,
}
use nexus_vector_keeperhub.Errors.{ErrorClass, Code, Result, ok, ◌>>=◌, ◌>>◌, reject_if}

unfoldable pub digit_char : ℕ → Char
digit_char d =
    if nat_eq d 0
    then "0"
    else if nat_eq d 1
    then "1"
    else if nat_eq d 2
    then "2"
    else if nat_eq d 3
    then "3"
    else if nat_eq d 4
    then "4"
    else if nat_eq d 5
    then "5"
    else if nat_eq d 6
    then "6"
    else if nat_eq d 7
    then "7"
    else if nat_eq d 8
    then "8"
    else "9"

-- `f"{n:0{width}d}"` of a number below `10**width`, before a text
unfoldable pub padded : ℕ → ℕ → String → String
padded zero n rest = rest
padded (suc width) n rest = padded width (n / 10) (String.◌∷◌ (digit_char (n % 10)) rest)

-- `str(n)`, before a text; a number has at most as many digits as it is great, and one
unfoldable pub decimal : ℕ → ℕ → String → String
decimal zero n rest = rest
decimal (suc fuel) n rest = elim (ltb n 10) [
  | true ↦ String.◌∷◌ (digit_char n) rest
  | false ↦ decimal fuel (n / 10) (String.◌∷◌ (digit_char (n % 10)) rest)
]

-- `value.rstrip(c)` for one character
unfoldable pub rstrip : Char → String → String
rstrip c String.[] = String.[]
rstrip c (String.◌∷◌ x s) =
    let rest = rstrip c s in
    if rest == "" && nat_eq (code x) (code c) then "" else String.◌∷◌ x rest

unfoldable pub amount_base_units_to_decimal_string : ℕ → ℕ → Result String
amount_base_units_to_decimal_string amount decimals = do
  reject_if (ltb amount 1) ErrorClass.direct Code.invalid_amount_base_units
  reject_if (ltb 36 decimals) ErrorClass.direct Code.invalid_token_decimals
  let divisor = 10 ^ decimals
  let remainder = amount % divisor
  ok (
      if nat_eq decimals 0
      then decimal (suc amount) amount ""
      else if nat_eq remainder 0
      then decimal (suc amount) (amount / divisor) ""
      else decimal (suc amount) (amount / divisor)
          (String.◌∷◌ "." (rstrip "0" (padded decimals remainder ""))))
