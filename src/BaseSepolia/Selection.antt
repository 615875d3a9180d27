-- ===== src/BaseSepolia/Selection.antt =====
-- Which transfer is selected from the logs of a receipt.
use nexus_vector_keeperhub.Prelude.{
  ℕ, zero, suc, ◌≡◌, refl, ◌⊎◌, inl, inr, Bool, true, some, List, [], ◌∷◌, ◌==◌, arith, Bool-cases,
  some_injective,
}
use nexus_vector_keeperhub.Prelude.Positions.{get_elem?}
use nexus_vector_keeperhub.Evidence.{ObservedTransfer}
use nexus_vector_keeperhub.BaseSepolia.{
  TransferVerifier, one, only, select_among, select_transfer, filter_by, chain_match,
}

-- The element stands at some position of the list.
abbrev pub IsIn {ℓ} : {A : Type ℓ} → A → List A → Type ℓ
IsIn x xs = (i : ℕ) × (get_elem? xs i ≡ some x)

pub first_or_later : (k : ℕ) → (k ≡ zero) ⊎ ((j : ℕ) × (k ≡ suc j))
first_or_later zero = inl refl
first_or_later (suc j) = inr (j, refl)

module _ {A : Type 0} (p : A → Bool) where
  IsIn-filter_by :
      (x : A) (xs : List A) (i : ℕ) → get_elem? xs i ≡ some x → p x ≡ true → IsIn x (filter_by p xs)
  unfolding filter_by
  IsIn-filter_by x [] i h t = absurd (ground (arith, h))
  IsIn-filter_by x (y ∷ ys) zero h t =
      let same : y ≡ x = some_injective h in rw (same, t) (zero, refl)
  IsIn-filter_by x (y ∷ ys) (suc i) h t =
      let (k, there) = IsIn-filter_by x ys i h t in
      elim (Bool-cases (p y)) [
        | inl kept ↦ rw kept (suc k, there)
        | inr dropped ↦ rw dropped (k, there)
      ]

  filter_by-IsIn : (x : A) (xs : List A) (k : ℕ) → get_elem? (filter_by p xs) k ≡ some x → IsIn x xs
  unfolding filter_by
  filter_by-IsIn x [] k h = absurd (ground (arith, h))
  filter_by-IsIn x (y ∷ ys) k h = elim (Bool-cases (p y)) [
    | inr dropped ↦ let (i, there) = filter_by-IsIn x ys k (rw dropped at h) in (suc i, there)
    | inl kept ↦ elim (first_or_later k) [
      | inl first ↦ (zero, ground (arith, h, kept, first))
      | inr (j, later) ↦
          let (i, there) = filter_by-IsIn x ys j (ground (arith, h, kept, later)) in (suc i, there)
    ]
  ]

-- The list of one element.
in_one : {A : Type 0} (x y : A) (k : ℕ) → get_elem? (y ∷ []) k ≡ some x → y ≡ x
in_one x y zero h = some_injective h
in_one x y (suc k) h = absurd (ground (arith, h))

only-one : (ts : List ObservedTransfer) {t : ObservedTransfer} → only ts ≡ one t → ts ≡ t ∷ []
only-one [] h = absurd (ground (arith, h))
only-one (x ∷ []) h = ground (arith, h)
only-one (x ∷ y ∷ ts) h = absurd (ground (arith, h))

abbrev of_token : TransferVerifier → List ObservedTransfer → List ObservedTransfer
of_token v = filter_by (λ (t : ObservedTransfer). t.token_address == v.expected_token)

-- The three ways of a selection.
abbrev Ways :
    TransferVerifier → List ObservedTransfer → List ObservedTransfer → ObservedTransfer → Type 0
Ways v everything expected t =
    (expected ≡ t ∷ [])
    ⊎ ((filter_by (chain_match v) expected ≡ t ∷ []) ⊎ ((expected ≡ []) × (everything ≡ t ∷ [])))

select_among-Ways :
    (v : TransferVerifier) (everything expected : List ObservedTransfer) {t : ObservedTransfer}
    → select_among v everything expected ≡ one t
    → Ways v everything expected t
select_among-Ways v everything (x ∷ []) h = inl (ground (arith, h))
select_among-Ways v everything (x ∷ y ∷ ts) h =
    inr (inl (only-one (filter_by (chain_match v) (x ∷ y ∷ ts)) h))
select_among-Ways v [] [] h = absurd (ground (arith, h))
select_among-Ways v (x ∷ xs) [] h = inr (inr (refl, only-one (x ∷ xs) h))

select_transfer-Ways :
    (v : TransferVerifier) (ts : List ObservedTransfer) {t : ObservedTransfer}
    → select_transfer v ts ≡ one t
    → Ways v ts (of_token v ts) t
unfolding select_transfer
select_transfer-Ways v ts h = select_among-Ways v ts (of_token v ts) h

-- What is selected is one of the transfers.
pub select_transfer-IsIn :
    (v : TransferVerifier) (ts : List ObservedTransfer) (t : ObservedTransfer)
    → select_transfer v ts ≡ one t
    → IsIn t ts
select_transfer-IsIn v ts t h = elim (select_transfer-Ways v ts h) [
  | inl alone ↦
      filter_by-IsIn (λ (x : ObservedTransfer). x.token_address == v.expected_token) t ts zero
        (rw alone refl)
  | inr (inl exact) ↦
      let (k, there) = filter_by-IsIn (chain_match v) t (of_token v ts) zero (rw exact refl) in
      filter_by-IsIn (λ (x : ObservedTransfer). x.token_address == v.expected_token) t ts k there
  | inr (inr (none_expected, alone)) ↦ (zero, rw alone refl)
]

-- Where a transfer with the expected token, sender, recipient and amount is among those of the logs,
-- no other transfer is selected.
pub select_transfer-matching :
    (v : TransferVerifier) (ts : List ObservedTransfer) (t u : ObservedTransfer) (i : ℕ)
    → select_transfer v ts ≡ one t
    → get_elem? ts i ≡ some u
    → chain_match v u ≡ true
    → t ≡ u
unfolding chain_match
select_transfer-matching v ts t u i h there matches =
    let (k, expected) =
      IsIn-filter_by (λ (x : ObservedTransfer). x.token_address == v.expected_token) u ts i there
        (ground (arith, matches)) in
    elim (select_transfer-Ways v ts h) [
      | inl alone ↦ in_one u t k (rw (← alone) expected)
      | inr (inl exact) ↦
          let (j, kept) = IsIn-filter_by (chain_match v) u (of_token v ts) k expected matches in
          in_one u t j (rw (← exact) kept)
      | inr (inr (none_expected, alone)) ↦ absurd (ground (arith, expected, none_expected))
    ]
