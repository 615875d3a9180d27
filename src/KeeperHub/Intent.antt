-- ===== src/KeeperHub/Intent.antt =====
-- src/nexus_vector/integrations/keeperhub_direct_execution.py and keeperhub_request_key.py: the intent
-- of a transfer, the bodies that are sent for it, and the key that the provider knows it by. A body
-- is a JSON object with its members in the order of their keys.
use Prim.Native.String.{◌++◌ as str_append}
use nexus_vector_keeperhub.Prelude.{
  ℕ, String, Bool, true, not, ◌||◌, Option, none, some, ◌==◌, ltb, nat_eq, any, if◌then◌else◌,
}
use nexus_vector_keeperhub.Prelude.Ids.{codes}
use nexus_vector_keeperhub.Errors.{ErrorClass, Code, Result, ok, fail, ◌>>=◌, ◌>>◌, reject_if}
use nexus_vector_keeperhub.Runtime.{
  Runtime, Json, Members, text, number, boolean, null, object, close, member,
}
use nexus_vector_keeperhub.Mission.Text.{is_address, lower}
use nexus_vector_keeperhub.Attempt.{is_effect_id}
use nexus_vector_keeperhub.KeeperHub.Amounts.{rstrip, amount_base_units_to_decimal_string}

pub record TransferIntent : Type 0 where
  pub chain_id : ℕ
  pub recipient_address : String
  pub amount_base_units : ℕ
  pub token_address : String
  pub token_decimals : ℕ
  pub gas_limit_multiplier : Option String

abbrev reject : Bool → Code → Result (Unit {0})
reject bad c = reject_if bad ErrorClass.direct c

-- `_ALLOWED_TESTNET_CHAIN_IDS`
abbrev pub is_allowed_chain : ℕ → Bool
is_allowed_chain n = nat_eq n 84532 || nat_eq n 11155111

-- `_canonical_address`
unfoldable pub canonical_address : String → Code → Result String
canonical_address value c = do reject (not (is_address value)) c; ok (lower value)

-- `if "." in canonical: canonical = canonical.rstrip("0").rstrip(".")`
unfoldable pub without_zeros : String → String
without_zeros s = if any (λ c. nat_eq c b'.') (codes s) then rstrip "." (rstrip "0" s) else s

module _ (rt : Runtime) where
  unfoldable pub canonical_decimal_string : String → Code → Result String
  canonical_decimal_string value c = do
    reject (value == "" || not (rt.strip value == value)) c
    elim (rt.positive_decimal value) [
      | none ↦ fail ErrorClass.direct c
      | some plain ↦ if without_zeros plain == value then ok value else fail ErrorClass.direct c
    ]

  abbrev canonical_multiplier : Option String → Result (Option String)
  canonical_multiplier none = ok none
  canonical_multiplier (some value) = do
    m ← canonical_decimal_string value Code.invalid_gas_limit_multiplier
    ok (some m)

  -- `KeeperHubTransferIntent(...)`: the checks and the normalisation of `__post_init__`
  unfoldable pub make_intent : TransferIntent → Result TransferIntent
  make_intent i = do
    reject (not (is_allowed_chain i.chain_id)) Code.unsupported_testnet_chain
    reject (ltb i.amount_base_units 1) Code.invalid_amount_base_units
    reject (ltb 36 i.token_decimals) Code.invalid_token_decimals
    recipient ← canonical_address i.recipient_address Code.invalid_recipient_address
    token ← canonical_address i.token_address Code.invalid_token_address
    multiplier ← canonical_multiplier i.gas_limit_multiplier
    ok (record i {
      recipient_address = recipient;
      token_address = token;
      gas_limit_multiplier = multiplier;
    })

abbrev optional_text : Option String → Json
optional_text none = null
optional_text (some s) = text s

unfoldable pub request_material : TransferIntent → Json
request_material i = object (
    member "amount_base_units" (number i.amount_base_units) (
      member "chain_id" (number i.chain_id) (
        member "gas_limit_multiplier" (optional_text i.gas_limit_multiplier) (
          member "recipient_address" (text i.recipient_address) (
            member "token_address" (text i.token_address)
              (member "token_decimals" (number i.token_decimals) close))))))

abbrev with_multiplier : Option String → Members → Members
with_multiplier none rest = rest
with_multiplier (some m) rest = member "gasLimitMultiplier" (text m) rest

unfoldable pub broadcast_body : TransferIntent → Result Json
broadcast_body i = do
  amount ← amount_base_units_to_decimal_string i.amount_base_units i.token_decimals
  ok (
      object (
        member "amount" (text amount) (
          member "chainId" (number i.chain_id) (
            with_multiplier i.gas_limit_multiplier (
              member "recipientAddress" (text i.recipient_address)
                (member "tokenAddress" (text i.token_address) close))))))

unfoldable pub simulation_body : TransferIntent → Result Json
simulation_body i = do
  amount ← amount_base_units_to_decimal_string i.amount_base_units i.token_decimals
  ok (
      object (
        member "amount" (text amount) (
          member "chainId" (number i.chain_id) (
            with_multiplier i.gas_limit_multiplier (
              member "recipientAddress" (text i.recipient_address) (
                member "simulate" (boolean true)
                  (member "tokenAddress" (text i.token_address) close)))))))

-- One stable provider key for one effect.
unfoldable pub derive_keeperhub_request_key : Runtime → String → Result String
derive_keeperhub_request_key rt effect_id =
    if is_effect_id effect_id
    then ok (
        str_append "khreq_v1_"
          (rt.sha256 (str_append "nexus-vector:keeperhub-request-key:v1\0" effect_id)))
    else fail ErrorClass.request_key Code.invalid_effect_id
