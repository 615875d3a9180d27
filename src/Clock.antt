-- ===== src/Clock.antt =====
-- Timestamps. `datetime` is a type of the standard library, of which the program reads the zone,
-- the offset, the order of instants and the round trip through microseconds in text.
use nexus_vector_keeperhub.Prelude.{
  ℕ, ◌≤◌, ◌≡◌, ap, ◌∙◌, ◌⊎◌, inl, inr, true, false, arith, ltb, nat_eq, if◌then◌else◌,
}
use nexus_vector_keeperhub.Errors.{
  Error, ErrorClass, Code, Result, ok, err, fail, ◌>>◌, reject_if, Result-cases,
}

-- `tzinfo is None`; a zone whose `utcoffset()` raises; a zone ahead of or behind UTC, in
-- microseconds.
pub data Zone : Type 0 where
  naive faulty : Zone
  ahead behind : ℕ → Zone

pub record Datetime : Type 0 where
  pub zone : Zone
  pub instant : ℕ

abbrev pub utc : ℕ → Datetime
utc n = record { zone = Zone.ahead 0; instant = n }

-- What the checks on `tzinfo` and `utcoffset()` answer for a zone.
zone_check : ErrorClass → Zone → Result (Unit {0})
zone_check c Zone.naive = fail c Code.invalid_timestamp
zone_check c Zone.faulty = fail c Code.invalid_timestamp
zone_check c (Zone.ahead n) =
    reject_if (if nat_eq n 0 then false else true) c Code.non_utc_timestamp
zone_check c (Zone.behind n) =
    reject_if (if nat_eq n 0 then false else true) c Code.non_utc_timestamp

-- `_require_utc_timestamp`, `_utc` and `_utc_timestamp`: one function, which each module repeats
-- with an exception class of its own.
unfoldable pub require_utc : ErrorClass → Datetime → Result Datetime
unfolding zone_check
require_utc c t = do zone_check c t.zone; ok t

-- `max(a, b)` of two instants with their zones: the second only where it is later.
unfoldable pub later : Datetime → Datetime → Datetime
later a b = if ltb a.instant b.instant then b else a

-- A timestamp that the checks accept.
abbrev pub IsUtc : Datetime → Type 0
IsUtc t = (c : ErrorClass) → require_utc c t ≡ ok t

-- A timestamp that is accepted is returned unchanged.
pub require_utc-same :
    (c : ErrorClass) (t : Datetime) {u : Datetime} → require_utc c t ≡ ok u → u ≡ t
unfolding require_utc
require_utc-same c t h = ground arith

-- The checks do not depend on the module that makes them.
pub require_utc-IsUtc :
    (c : ErrorClass) (t : Datetime) {u : Datetime} → require_utc c t ≡ ok u → IsUtc t
unfolding require_utc
require_utc-IsUtc c t h = λ d. ground arith

-- The later of two timestamps is not before either, and is one of them.
pub later-bounds :
    (a b : Datetime) → (a.instant ≤ (later a b).instant) × (b.instant ≤ (later a b).instant)
unfolding later
later-bounds a b = ground arith

pub later-IsUtc : (a b : Datetime) → IsUtc a → IsUtc b → IsUtc (later a b)
unfolding later
later-IsUtc a b ha hb = λ c. ground (arith, ha c, hb c)

-- The check returns its argument or raises.
pub require_utc-cases :
    (c : ErrorClass) (t : Datetime)
    → (require_utc c t ≡ ok t) ⊎ ((e : Error) × (require_utc c t ≡ err e))
require_utc-cases c t = elim (Result-cases (require_utc c t)) [
  | inl (e, h) ↦ inr (e, h)
  | inr (u, h) ↦ inl (h ∙ ap ok (require_utc-same c t h))
]
