-- ===== src/Attempt/States.antt =====
-- src/nexus_vector/domain/execution_attempts.py: the states of an execution attempt.
use nexus_vector_keeperhub.Prelude.{ℕ, ◌<◌, ◌≡◌, Bool, true, false, arith, nat_eq}

pub data AttemptState : Type 0 where
  prepared in_flight provider_acknowledged execution_unknown : AttemptState
  verified failed_final blocked : AttemptState

-- `target_state in _TRANSITIONS[state]`
abbrev pub allowed : AttemptState → AttemptState → Bool
allowed AttemptState.prepared AttemptState.in_flight = true
allowed AttemptState.prepared AttemptState.verified = true
allowed AttemptState.prepared AttemptState.blocked = true
allowed AttemptState.in_flight AttemptState.provider_acknowledged = true
allowed AttemptState.in_flight AttemptState.execution_unknown = true
allowed AttemptState.in_flight AttemptState.failed_final = true
allowed AttemptState.in_flight AttemptState.verified = true
allowed AttemptState.in_flight AttemptState.blocked = true
allowed AttemptState.provider_acknowledged AttemptState.verified = true
allowed AttemptState.provider_acknowledged AttemptState.execution_unknown = true
allowed AttemptState.provider_acknowledged AttemptState.failed_final = true
allowed AttemptState.provider_acknowledged AttemptState.blocked = true
allowed AttemptState.execution_unknown AttemptState.verified = true
allowed AttemptState.execution_unknown AttemptState.failed_final = true
allowed AttemptState.execution_unknown AttemptState.blocked = true
allowed _ _ = false

-- The position of a state in the enumeration, by which `is` tells two states apart.
abbrev pub position : AttemptState → ℕ
position AttemptState.prepared = 0
position AttemptState.in_flight = 1
position AttemptState.provider_acknowledged = 2
position AttemptState.execution_unknown = 3
position AttemptState.verified = 4
position AttemptState.failed_final = 5
position AttemptState.blocked = 6

-- `a is b`
abbrev pub same : AttemptState → AttemptState → Bool
same a b = nat_eq (position a) (position b)

-- `state in _RECOVERY_STATES`
abbrev pub is_recovery : AttemptState → Bool
is_recovery AttemptState.prepared = true
is_recovery AttemptState.in_flight = true
is_recovery AttemptState.provider_acknowledged = true
is_recovery AttemptState.execution_unknown = true
is_recovery _ = false

pub same→≡ : (a b : AttemptState) → same a b ≡ true → a ≡ b
same→≡ a b h = ground arith

-- A state from which no move is permitted.
abbrev pub is_terminal : AttemptState → Bool
is_terminal AttemptState.verified = true
is_terminal AttemptState.failed_final = true
is_terminal AttemptState.blocked = true
is_terminal _ = false

-- How far along an attempt is: every move goes strictly up.
abbrev pub rank : AttemptState → ℕ
rank AttemptState.prepared = 0
rank AttemptState.in_flight = 1
rank AttemptState.provider_acknowledged = 2
rank AttemptState.execution_unknown = 3
rank _ = 4

pub allowed-rank : (a b : AttemptState) → allowed a b ≡ true → rank a < rank b
allowed-rank a b h = ground arith

pub allowed-in_flight :
    (a : AttemptState) → allowed a AttemptState.in_flight ≡ true → a ≡ AttemptState.prepared
allowed-in_flight a h = ground arith

pub allowed-terminal : (a b : AttemptState) → is_terminal a ≡ true → allowed a b ≡ false
allowed-terminal a b h = ground arith
