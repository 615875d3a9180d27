-- ===== src/Tests/Connections.antt =====
-- Connections at concrete inputs.
use nexus_vector_keeperhub.Prelude.{ℕ, ◌+◌, ◌≡◌, refl, nat_eq, if◌then◌else◌}
use nexus_vector_keeperhub.Errors.{ok}
use nexus_vector_keeperhub.Persistence.WalMode.{
  Pragma, Engine, Connection, IsBounded, retry_wal, enable_wal, enable_wal-IsBounded,
}

-- An engine that is locked at the first two requests.
abbrev locked_twice : Engine ℕ
locked_twice n = (if nat_eq n 2 then Pragma.wal else Pragma.locked, n + 1)

abbrev connected : Connection ℕ
connected = record { engine = 0; requests = 0; slept = 0 }

third_request :
    enable_wal locked_twice connected ≡ (ok tt, record { engine = 3; requests = 3; slept = 60 })
unfolding enable_wal retry_wal
third_request = refl

enable_wal-IsBounded_example :
    let (r, c) = enable_wal locked_twice connected in IsBounded locked_twice 10 900 connected r c
enable_wal-IsBounded_example = enable_wal-IsBounded locked_twice connected
