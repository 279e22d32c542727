-- ===== src/Core/Clock.antt =====
-- Times: `DateTime<Utc>` and `TIMESTAMPTZ` as microseconds since the epoch, which is the resolution
-- of the database. `chrono::Duration::seconds` is `seconds`.
use coin_listener.Prelude.{ℕ, ◌*◌}

abbrev pub Time : Type 0
Time = ℕ

abbrev pub seconds : ℕ → ℕ
seconds n = n * 1_000_000
