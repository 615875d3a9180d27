-- ===== src/Persistence/WalMode.antt =====
-- `_enable_wal_with_bounded_retry`, which the stores of src/nexus_vector/persistence repeat: the journal
-- mode of a connection is asked for again while the database is locked, with longer and longer
-- pauses. SQLite is a parameter with a state of its own. A connection counts the requests and the
-- milliseconds that were slept.
use Prim.Native.Nat.{◌*◌}
use nexus_vector_keeperhub.Prelude.{
  ℕ, zero, suc, ◌+◌, ◌≤◌, ◌≡◌, refl, ◌⊎◌, inl, inr, nat_eq, arith, Bool-cases, if◌then◌else◌,
}
use nexus_vector_keeperhub.Errors.{ErrorClass, Code, Result, ok, fail}

-- What `PRAGMA journal_mode = WAL` comes to: the mode is WAL; the engine raises an error that says
-- locked or busy; any other mode, or any other error.
pub data Pragma : Type 0 where
  wal locked unavailable : Pragma

abbrev pub Engine : Type 0 → Type 0
Engine Q = Q → Pragma × Q

pub record Connection (Q : Type 0) : Type 0 where
  pub engine : Q
  pub requests : ℕ
  pub slept : ℕ

abbrev raise_database : {Q : Type 0} → Connection Q → Result (Unit {0}) × Connection Q
raise_database c = (fail ErrorClass.foreign Code.database_error, c)

module _ {Q : Type 0} (pragma : Engine Q) where
  -- One request.
  abbrev asked : Connection Q → Connection Q
  asked c = record c { engine = (pragma c.engine).1; requests = c.requests + 1 }

  -- `time.sleep(0.02 * (attempt + 1))`
  abbrev rested : ℕ → Connection Q → Connection Q
  rested attempt c = record c { slept = c.slept + 20 * (attempt + 1) }

  -- The loop: how many rounds are left, and the number of the round.
  unfoldable pub retry_wal : ℕ → ℕ → Connection Q → Result (Unit {0}) × Connection Q
  retry_wal zero attempt c = (ok tt, c)
  retry_wal (suc left) attempt c =
      let again = retry_wal left (attempt + 1) (rested attempt (asked c)) in
      elim (pragma c.engine).0 [
        | wal ↦ (ok tt, asked c)
        | unavailable ↦ raise_database (asked c)
        | locked ↦ if nat_eq (attempt + 1) 10 then raise_database (asked c) else again
      ]

  unfoldable pub enable_wal : Connection Q → Result (Unit {0}) × Connection Q
  enable_wal = retry_wal 10 0

-- How long the rounds that are left may sleep.
abbrev budget : ℕ → ℕ → ℕ
budget zero attempt = 0
budget (suc left) attempt =
    (if nat_eq (attempt + 1) 10 then 0 else 20 * (attempt + 1)) + budget left (attempt + 1)

-- What a run of the loop has used, and why it returned.
pub record IsBounded {Q : Type 0} (pragma : Engine Q) (requests slept : ℕ) (c : Connection Q)
    (r : Result (Unit {0})) (c' : Connection Q) : Type 0 where
  pub few : c'.requests ≤ c.requests + requests
  pub short : c'.slept ≤ c.slept + slept
  pub answered : r ≡ ok tt → (q : Q) × ((pragma q).0 ≡ Pragma.wal) × (c'.engine ≡ (pragma q).1)

Pragma-cases : (p : Pragma) → (p ≡ Pragma.wal) ⊎ ((p ≡ Pragma.locked) ⊎ (p ≡ Pragma.unavailable))
Pragma-cases Pragma.wal = inl refl
Pragma-cases Pragma.locked = inr (inl refl)
Pragma-cases Pragma.unavailable = inr (inr refl)

module _ {Q : Type 0} (pragma : Engine Q) where
  retry_wal-IsBounded :
      (left attempt : ℕ) (c : Connection Q)
      → left + attempt ≡ 9
      → let (r, c') = retry_wal pragma (suc left) attempt c in
        IsBounded pragma (suc left) (budget (suc left) attempt) c r c'
  unfolding retry_wal
  retry_wal-IsBounded zero attempt c h = elim (Pragma-cases (pragma c.engine).0) [
    | inl answer ↦
        rw (retry_wal, answer)
          (record {
            few = omega arith;
            short = omega arith;
            answered = λ x. (c.engine, answer, refl);
          })
    | inr (inr refused) ↦
        rw (retry_wal, refused)
          (record {
            few = omega arith;
            short = omega arith;
            answered = λ x. absurd (ground (arith, x));
          })
    | inr (inl busy) ↦ elim (Bool-cases (nat_eq (attempt + 1) 10)) [
      | inl last ↦
          rw (retry_wal, busy, last)
            (record {
              few = omega arith;
              short = omega arith;
              answered = λ x. absurd (ground (arith, x));
            })
      | inr more ↦ absurd (ground (arith, more, h))
    ]
  ]
  retry_wal-IsBounded (suc left) attempt c h = elim (Pragma-cases (pragma c.engine).0) [
    | inl answer ↦
        rw (retry_wal, answer)
          (record {
            few = omega arith;
            short = omega arith;
            answered = λ x. (c.engine, answer, refl);
          })
    | inr (inr refused) ↦
        rw (retry_wal, refused)
          (record {
            few = omega arith;
            short = omega arith;
            answered = λ x. absurd (ground (arith, x));
          })
    | inr (inl busy) ↦ elim (Bool-cases (nat_eq (attempt + 1) 10)) [
      | inl last ↦
          rw (retry_wal, busy, last)
            (record {
              few = omega arith;
              short = omega arith;
              answered = λ x. absurd (ground (arith, x));
            })
      | inr more ↦
          let next =
            retry_wal-IsBounded left (attempt + 1) (rested pragma attempt (asked pragma c))
              (omega (arith, h)) in
          rw (retry_wal, busy, more)
            (record {
              few = omega (arith, next.few);
              short = omega (arith, next.short);
              answered = next.answered;
            })
    ]
  ]

  -- Enabling the mode asks for it at most ten times and sleeps at most 0.9 seconds, whatever the
  -- engine does; and where it returns, the last answer was that the mode is WAL.
  pub enable_wal-IsBounded :
      (c : Connection Q) → let (r, c') = enable_wal pragma c in IsBounded pragma 10 900 c r c'
  unfolding enable_wal
  enable_wal-IsBounded c = retry_wal-IsBounded 9 0 c refl
