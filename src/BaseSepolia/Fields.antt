-- ===== src/BaseSepolia/Fields.antt =====
-- src/nexus_vector/integrations/base_sepolia_rpc_verification.py: the readers of a value that a reply or a
-- log of the chain holds under a key.
use Prim.Native.String.{String, ◌++◌ as str_append}
use Prim.Native.Nat.{◌*◌}
use nexus_vector_keeperhub.Prelude.{
  ℕ, zero, suc, ◌+◌, ◌-◌, Bool, true, false, not, ◌&&◌, ◌||◌, List, [], ◌∷◌, ltb, leb, nat_eq, all,
  if◌then◌else◌,
}
use nexus_vector_keeperhub.Prelude.Ids.{codes}
use nexus_vector_keeperhub.Errors.{ErrorClass, Code, Result, ok, fail, reject_if}
use nexus_vector_keeperhub.Mission.Text.{is_hex_digit, is_address, lower}
use nexus_vector_keeperhub.Evidence.{match_hash}

-- A value under a key: a text, or any other value or none.
pub data Field : Type 0 where
  text : String → Field
  other : Field

abbrev pub fail_chain {ℓ} : {A : Type ℓ} → Code → Result A
fail_chain = fail ErrorClass.chain

abbrev pub reject : Bool → Code → Result (Unit {0})
reject bad c = reject_if bad ErrorClass.chain c

-- `_address` and `_hash`
unfoldable pub chain_address : Field → Code → Result String
chain_address other c = fail_chain c
chain_address (text s) c = if is_address s then ok (lower s) else fail_chain c

unfoldable pub chain_hash : Field → Code → Result String
chain_hash other c = fail_chain c
chain_hash (text s) c = if match_hash (codes s) then ok (lower s) else fail_chain c

-- `value[n:]`, of code points and of a text
abbrev pub after : ℕ → List ℕ → List ℕ
after zero cs = cs
after (suc n) [] = []
after (suc n) (c ∷ cs) = after n cs

abbrev pub text_after : ℕ → String → String
text_after zero s = s
text_after (suc n) String.[] = ""
text_after (suc n) (String.◌∷◌ c s) = text_after n s

abbrev is_end : List ℕ → Bool
is_end [] = true
is_end (c ∷ cs) = false

-- The value of a hexadecimal digit, and `int(value, 16)` on digits.
unfoldable pub digit_value : ℕ → ℕ
digit_value c = if leb c b'9' then c - 48 else if leb c b'F' then c - 55 else c - 87

unfoldable pub hex_value : ℕ → List ℕ → ℕ
hex_value n [] = n
hex_value n (c ∷ cs) = hex_value (n * 16 + digit_value c) cs

-- `_HEX_QUANTITY_PATTERN`, matched in full
unfoldable pub match_quantity : List ℕ → Bool
match_quantity (a ∷ b ∷ c ∷ cs) =
    nat_eq a b'0'
    && nat_eq b b'x'
    && (nat_eq c b'0' && is_end cs || not (nat_eq c b'0') && is_hex_digit c && all is_hex_digit cs)
match_quantity _ = false

unfoldable pub hex_quantity : Field → Code → Result ℕ
hex_quantity other c = fail_chain c
hex_quantity (text s) c =
    if match_quantity (codes s) then ok (hex_value 0 (after 2 (codes s))) else fail_chain c

-- `"0x" + value[-40:].lower()` of a topic, which has 66 characters
unfoldable pub topic_address : Field → Code → Result String
topic_address other c = fail_chain c
topic_address (text s) c =
    if match_hash (codes s) then ok (str_append "0x" (lower (text_after 26 s))) else fail_chain c

unfoldable pub uint256_data : Field → Code → Result ℕ
uint256_data other c = fail_chain c
uint256_data (text s) c =
    let n = hex_value 0 (after 2 (codes s)) in
    if match_hash (codes s) && not (ltb n 1) then ok n else fail_chain c
