-- ===== src/Storage/Postgres.antt =====
-- What the statements take from the database and is not in the repository: floating-point durations,
-- the range of intervals and times, and the concatenation of JSON objects.
use coin_listener.Prelude.{ℕ, Option}
use coin_listener.Prelude.Text.{Text}
use coin_listener.Prelude.Int.{ℤ}
use coin_listener.Prelude.Json.{Json}
use coin_listener.Core.Clock.{Time}

pub record Postgres : Type 0 where
  -- What `now + (ttl || ' seconds')::interval` fails with, when the interval or the time is out of
  -- the database's range.
  pub lease_error : Time → ℕ → Option Text
  -- GREATEST(0, EXTRACT(EPOCH FROM (until - from)) * 1000)::BIGINT
  pub duration_ms : Time → Time → ℤ
  -- ◌ || ◌ on jsonb
  pub jsonb_concat : Json → Json → Json
