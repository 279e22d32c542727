-- ===== src/Storage/ProviderHealth.antt =====
-- backend/crates/storage/src/provider_health.rs: the health of the providers, and which of them a
-- scan may ask. The count of failures is far below the end of its 32 bits.
pub mod Circuit
pub mod Candidates
use mathlib.Core.Option
use coin_listener.Prelude.{
  ℕ, suc, ◌+◌, Bool, true, false, ◌&&◌, ◌||◌, not, List, [], ◌∷◌, ◌++◌, map, filter, Option, none,
  some, if◌then◌else◌, ltb, leb, ◌==◌, any, find, take, ◌/◌,
}
use coin_listener.Prelude.Int.{ℤ, pos, ltb_ℤ}
use coin_listener.Prelude.Text.{Text, codes, text_eq}
use coin_listener.Core.Clock.{Time, seconds}
use coin_listener.Core.Error.{AppError, AppResult, ok, err, redis, error_text}
use coin_listener.Core.Machine.{eq_ℤ, leb_ℤ}
use coin_listener.Core.Models.{Uuid, Provider, ProviderHealthStatus}
use coin_listener.Storage.Sql.Upsert.{upsert}
use coin_listener.Storage.Sql.Order.{order_by}
use coin_listener.Storage.Redaction.{sanitize_provider_error}

abbrev pub provider_circuit_failure_threshold : ℕ
provider_circuit_failure_threshold = 3

abbrev pub provider_circuit_cooldown_seconds : ℕ
provider_circuit_cooldown_seconds = 300

pub record ProviderHealthRow : Type 0 where
  pub provider_id : Uuid
  pub consecutive_failures : ℕ
  pub last_success_at : Option Time
  pub last_failure_at : Option Time
  pub disabled_until : Option Time
  pub last_error : Option Text

pub record ProviderCandidate : Type 0 where
  pub provider : Provider
  pub health : Option ProviderHealthRow

unfoldable pub provider_disabled_until : ℕ → Time → Option Time
provider_disabled_until failure_count now =
    if leb provider_circuit_failure_threshold failure_count
    then some (now + seconds provider_circuit_cooldown_seconds)
    else none

unfoldable pub is_provider_circuit_open : Option Time → Time → Bool
is_provider_circuit_open none now = false
is_provider_circuit_open (some value) now = ltb now value

unfoldable pub provider_candidate_health : ProviderCandidate → Time → ProviderHealthStatus
unfolding is_provider_circuit_open
provider_candidate_health candidate now = status_of candidate.health
  where
    status_of : Option ProviderHealthRow → ProviderHealthStatus
    status_of none = record {
      consecutive_failures = pos 0;
      last_success_at = none;
      last_failure_at = none;
      disabled_until = none;
      last_error = none;
      is_circuit_open = false;
    }
    status_of (some health) = record {
      consecutive_failures = pos health.consecutive_failures;
      last_success_at = health.last_success_at;
      last_failure_at = health.last_failure_at;
      disabled_until = health.disabled_until;
      last_error = health.last_error;
      is_circuit_open = is_provider_circuit_open health.disabled_until now;
    }

-- The join on the primary key of provider_health.
abbrev pub is_health_of : Uuid → ProviderHealthRow → Bool
is_health_of provider_id h = h.provider_id == provider_id

unfoldable pub health_of : Uuid → List ProviderHealthRow → Option ProviderHealthRow
health_of provider_id rows = find (is_health_of provider_id) rows

-- (ph.disabled_until IS NULL OR ph.disabled_until <= $2)
abbrev pub is_enabled_time : Option Time → Time → Bool
is_enabled_time none now = true
is_enabled_time (some t) now = leb t now

unfoldable pub is_enabled : Time → Option ProviderHealthRow → Bool
is_enabled now none = true
is_enabled now (some h) = is_enabled_time h.disabled_until now

abbrev pub is_active_rpc : Uuid → Provider → Bool
is_active_rpc chain_id p =
    p.chain_id == chain_id
    && text_eq p.provider_type (codes "rpc")
    && text_eq p.status (codes "active")

unfoldable pub is_candidate : List ProviderHealthRow → Uuid → Time → Provider → Bool
unfolding is_enabled health_of
is_candidate rows chain_id now p = is_active_rpc chain_id p && is_enabled now (health_of p.id rows)

-- The row of the join as a candidate, with its health when there is a row.
abbrev pub candidate_of : List ProviderHealthRow → Provider → ProviderCandidate
candidate_of rows p = record { provider = p; health = health_of p.id rows }

-- ORDER BY p.priority ASC, p.name ASC; `name_before` is the collation of the database.
module _ (name_before : Text → Text → Bool) where
  abbrev pub comes_before : Provider → Provider → Bool
  comes_before p q =
      ltb_ℤ p.priority q.priority || (eq_ℤ p.priority q.priority && name_before p.name q.name)

  unfoldable pub active_rpc_provider_candidates :
      List Provider → List ProviderHealthRow → Uuid → Time → List ProviderCandidate
  active_rpc_provider_candidates providers rows chain_id now =
      map (candidate_of rows)
        (order_by comes_before (filter (is_candidate rows chain_id now) providers))

abbrev pub first_success : Uuid → Time → ProviderHealthRow
first_success provider_id now = record {
  provider_id = provider_id;
  consecutive_failures = 0;
  last_success_at = some now;
  last_failure_at = none;
  disabled_until = none;
  last_error = none;
}

abbrev pub served_row : Time → ProviderHealthRow → ProviderHealthRow
served_row now h = record h {
  consecutive_failures = 0;
  last_success_at = some now;
  disabled_until = none;
  last_error = none;
}

unfoldable pub record_provider_success :
    Uuid → Time → List ProviderHealthRow → List ProviderHealthRow
record_provider_success provider_id now rows =
    upsert (is_health_of provider_id) (first_success provider_id now) (served_row now) rows

abbrev pub first_failure : Uuid → Time → Text → ProviderHealthRow
first_failure provider_id now error = record {
  provider_id = provider_id;
  consecutive_failures = 1;
  last_success_at = none;
  last_failure_at = some now;
  disabled_until = none;
  last_error = some error;
}

unfoldable pub failed_row : Time → Text → ProviderHealthRow → ProviderHealthRow
failed_row now error h = record h {
  consecutive_failures = h.consecutive_failures + 1;
  last_failure_at = some now;
  disabled_until =
      if leb provider_circuit_failure_threshold (h.consecutive_failures + 1)
      then some (now + seconds provider_circuit_cooldown_seconds)
      else h.disabled_until;
  last_error = some error;
}

unfoldable pub record_provider_failure :
    Uuid → Time → AppError → List ProviderHealthRow → List ProviderHealthRow
unfolding failed_row
record_provider_failure provider_id now error rows =
    let sanitized = sanitize_provider_error (error_text error) in
    upsert (is_health_of provider_id) (first_failure provider_id now sanitized)
      (failed_row now sanitized) rows

unfoldable pub provider_qps_permits : ℤ → ℤ → Bool
provider_qps_permits current_count qps_limit =
    ltb_ℤ (pos 0) qps_limit && leb_ℤ current_count qps_limit

-- The two commands that the code sends to Redis, with the key of a provider and a second.
pub record Redis (R : Type 0) : Type 0 where
  pub incr : Uuid → ℕ → R → AppResult ℤ × R
  pub expire : Uuid → ℕ → ℕ → R → AppResult Bool × R

-- `now.timestamp()`
abbrev pub epoch_second : Time → ℕ
epoch_second now = now / 1_000_000

module _ {R : Type 0} (client : Redis R) where
  unfoldable pub try_acquire_provider_qps : Uuid → ℤ → Time → R → AppResult Bool × R
  unfolding provider_qps_permits
  try_acquire_provider_qps provider_id qps_limit now r =
      counted (client.incr provider_id (epoch_second now) r)
    where
      permits : ℤ → AppResult Bool × R → AppResult Bool × R
      permits current_count (err e, r) = (err e, r)
      permits current_count (ok expire_set, r) =
          if not expire_set
          then (err (redis (codes "failed to expire provider QPS key")), r)
          else (ok (provider_qps_permits current_count qps_limit), r)

      counted : AppResult ℤ × R → AppResult Bool × R
      counted (err e, r) = (err e, r)
      counted (ok current_count, r) =
          permits current_count (client.expire provider_id (epoch_second now) 2 r)
