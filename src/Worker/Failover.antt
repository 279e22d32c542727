-- ===== src/Worker/Failover.antt =====
-- How a scan falls back over the providers of its chain: `scan_evm_address`, whose loop
-- `scan_tron_address` and `scan_btc_address` of backend/crates/worker/src/lib.rs repeat around their
-- own scan with one provider.
--
-- A scan with one provider is a parameter here, over the tables that it writes; the health of the
-- providers and the counters in Redis are the loop's own state. The writes of a health row do not
-- fail: the code logs such a failure and goes on.
pub mod Course
pub mod Fallback
use coin_listener.Prelude.{
  ℕ, Bool, true, false, List, [], ◌∷◌, ◌++◌, Option, none, some, if◌then◌else◌,
}
use coin_listener.Prelude.Text.{Text, codes}
use coin_listener.Core.Clock.{Time}
use coin_listener.Core.Error.{AppError, AppResult, ok, err, config}
use coin_listener.Core.Action.{Action}
use coin_listener.Core.Models.{Uuid, Provider, AddressEvent}
use coin_listener.Storage.ProviderHealth.{
  ProviderHealthRow, ProviderCandidate, Redis, active_rpc_provider_candidates,
  record_provider_success, record_provider_failure, try_acquire_provider_qps,
}
use coin_listener.Worker.Paging.{is_provider_availability_error}

-- `show_uuid` is the text of an id, which the uuid library prints.
unfoldable pub provider_capacity_error : (Uuid → Text) → Uuid → AppError
provider_capacity_error show_uuid chain_id =
    config (codes "no active rpc provider capacity for chain " ++ show_uuid chain_id)

unfoldable pub provider_attempts_exhausted_error : (Uuid → Text) → Uuid → Option AppError → AppError
provider_attempts_exhausted_error show_uuid chain_id none =
    provider_capacity_error show_uuid chain_id
provider_attempts_exhausted_error show_uuid chain_id (some e) = e

pub record FailoverState (R D : Type 0) : Type 0 where
  pub health : List ProviderHealthRow
  pub redis : R
  pub tables : D

module _ {R D : Type 0} (client : Redis R) (show_uuid : Uuid → Text)
    (scan_with_provider : Provider → Action D (List AddressEvent)) (chain_id : Uuid)
    (now : Time) where
  abbrev pub Outcome : Type 0
  Outcome = AppResult (List AddressEvent) × FailoverState R D

  -- What a scan with the provider came to; `go_on` is the rest of the loop.
  unfoldable pub after_scan :
      Provider
      → FailoverState R D
      → (Option AppError → FailoverState R D → Outcome)
      → AppResult (List AddressEvent) × D
      → Outcome
  after_scan provider s go_on (ok events, tables) = (
    ok events,
    record s { health = record_provider_success provider.id now s.health; tables = tables },
  )
  after_scan provider s go_on (err e, tables) =
      let failed = record_provider_failure provider.id now e s.health in
      let next = go_on (some e) (record s { health = failed; tables = tables }) in
      if is_provider_availability_error e then next else (err e, record s { tables = tables })

  unfoldable pub after_permit :
      Provider
      → FailoverState R D
      → Option AppError
      → (Option AppError → FailoverState R D → Outcome)
      → AppResult Bool × R
      → Outcome
  after_permit provider s last go_on (err e, r) = (err e, record s { redis = r })
  after_permit provider s last go_on (ok false, r) = go_on last (record s { redis = r })
  after_permit provider s last go_on (ok true, r) =
      after_scan provider (record s { redis = r }) go_on (scan_with_provider provider s.tables)

  unfoldable pub try_candidates :
      List ProviderCandidate → Option AppError → FailoverState R D → Outcome
  try_candidates [] last s = (err (provider_attempts_exhausted_error show_uuid chain_id last), s)
  try_candidates (candidate ∷ candidates) last s =
      let provider = candidate.provider in
      after_permit provider s last (try_candidates candidates)
        (try_acquire_provider_qps client provider.id provider.qps_limit now s.redis)

  unfoldable pub scan_from : FailoverState R D → List ProviderCandidate → Outcome
  scan_from s [] = (err (provider_capacity_error show_uuid chain_id), s)
  scan_from s (c ∷ cs) = try_candidates (c ∷ cs) none s

  unfoldable pub scan_address : (Text → Text → Bool) → List Provider → FailoverState R D → Outcome
  scan_address name_before providers s =
      scan_from s (active_rpc_provider_candidates name_before providers s.health chain_id now)
