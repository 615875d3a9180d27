-- ===== src/Mission/Text.antt =====
-- Addresses: the pattern `0x[0-9a-fA-F]{40}` matched in full, and `lower()` on what matches it.
use Prim.Native.Char.{Char, code}
use Prim.Native.String.{String}
use nexus_vector_keeperhub.Prelude.{
  ℕ, Bool, false, ◌&&◌, ◌||◌, List, ◌∷◌, length, all, leb, nat_eq, if◌then◌else◌,
}
use nexus_vector_keeperhub.Prelude.Ids.{codes}

-- `[0-9a-fA-F]`
unfoldable pub is_hex_digit : ℕ → Bool
is_hex_digit c = leb b'0' c && leb c b'9' || leb b'a' c && leb c b'f' || leb b'A' c && leb c b'F'

unfoldable pub match_address : List ℕ → Bool
unfolding is_hex_digit
match_address (a ∷ b ∷ digits) =
    nat_eq a b'0' && nat_eq b b'x' && nat_eq (length digits) 40 && all is_hex_digit digits
match_address _ = false

unfoldable pub is_address : String → Bool
unfolding match_address
is_address s = match_address (codes s)

-- The capital letters that an address can hold are A to F.
unfoldable pub lower_char : Char → Char
lower_char c =
    if nat_eq (code c) b'A'
    then "a"
    else if nat_eq (code c) b'B'
    then "b"
    else if nat_eq (code c) b'C'
    then "c"
    else if nat_eq (code c) b'D'
    then "d"
    else if nat_eq (code c) b'E'
    then "e"
    else if nat_eq (code c) b'F'
    then "f"
    else c

unfoldable pub lower : String → String
unfolding lower_char
lower String.[] = String.[]
lower (String.◌∷◌ c s) = String.◌∷◌ (lower_char c) (lower s)
