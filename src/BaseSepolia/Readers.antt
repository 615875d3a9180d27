-- ===== src/BaseSepolia/Readers.antt =====
-- The readers of src/nexus_vector/integrations/base_sepolia_rpc_verification.py return addresses and hashes
-- in lower case.
use Prim.Native.Char.{Char, code}
use Prim.Native.String.{String, ◌++◌ as str_append}
use Prim.Native.String.append
use nexus_vector_keeperhub.Prelude.{◌∙◌, ◌≡◌, refl, ap, arith, inl, inr, nat_eq, Bool-cases}
use nexus_vector_keeperhub.Errors.{Code, ok}
use nexus_vector_keeperhub.Mission.Text.{lower, lower_char}
use nexus_vector_keeperhub.BaseSepolia.{
  Field, text, other, chain_address, chain_hash, topic_address,
}
use nexus_vector_keeperhub.BaseSepolia.Fields.{text_after}

lower_char-idempotent : (c : Char) → lower_char (lower_char c) ≡ lower_char c
unfolding lower_char
lower_char-idempotent c = elim (Bool-cases (nat_eq (code c) b'A')) [
  | inl is ↦ rw is refl
  | inr other0 ↦ elim (Bool-cases (nat_eq (code c) b'B')) [
    | inl is ↦ rw (other0, is) refl
    | inr other1 ↦ elim (Bool-cases (nat_eq (code c) b'C')) [
      | inl is ↦ rw (other0, other1, is) refl
      | inr other2 ↦ elim (Bool-cases (nat_eq (code c) b'D')) [
        | inl is ↦ rw (other0, other1, other2, is) refl
        | inr other3 ↦ elim (Bool-cases (nat_eq (code c) b'E')) [
          | inl is ↦ rw (other0, other1, other2, other3, is) refl
          | inr other4 ↦ elim (Bool-cases (nat_eq (code c) b'F')) [
            | inl is ↦ rw (other0, other1, other2, other3, other4, is) refl
            | inr other5 ↦
                let kept : lower_char c ≡ c =
                  rw (other0, other1, other2, other3, other4, other5) refl in
                ap lower_char kept
          ]
        ]
      ]
    ]
  ]
]

pub lower-idempotent : (s : String) → lower (lower s) ≡ lower s
unfolding lower
lower-idempotent String.[] = refl
lower-idempotent (String.◌∷◌ c s) = ground (arith, lower_char-idempotent c, lower-idempotent s)

pub chain_address-lower :
    (f : Field) (c : Code) {s : String} → chain_address f c ≡ ok s → lower s ≡ s
unfolding chain_address
chain_address-lower other c h = absurd (ground (arith, h))
chain_address-lower (text x) c h = ground (arith, h, lower-idempotent x)

pub chain_hash-lower : (f : Field) (c : Code) {s : String} → chain_hash f c ≡ ok s → lower s ≡ s
unfolding chain_hash
chain_hash-lower other c h = absurd (ground (arith, h))
chain_hash-lower (text x) c h = ground (arith, h, lower-idempotent x)

-- The prefix of an address, a character at a time.
spelled : (s : String) → str_append "0x" s ≡ String.◌∷◌ "0" (String.◌∷◌ "x" s)
spelled s =
    (λ i. append.cons "0" "x" s i)
    ∙ ap (String.◌∷◌ "0")
        ((λ i. append.cons "x" "" s i) ∙ ap (String.◌∷◌ "x") (λ i. append.nil s i))

prefixed_lower : (s : String) → lower (str_append "0x" (lower s)) ≡ str_append "0x" (lower s)
unfolding lower lower_char
prefixed_lower s =
    rw (spelled (lower s)) (ap (λ y. String.◌∷◌ "0" (String.◌∷◌ "x" y)) (lower-idempotent s))

pub topic_address-lower :
    (f : Field) (c : Code) {s : String} → topic_address f c ≡ ok s → lower s ≡ s
unfolding topic_address
topic_address-lower other c h = absurd (ground (arith, h))
topic_address-lower (text x) c {s} h =
    let written : str_append "0x" (lower (text_after 26 x)) ≡ s = ground (arith, h) in
    rw (← written) (prefixed_lower (text_after 26 x))
