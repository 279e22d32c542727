-- ===== src/Tests/Providers.antt =====
-- The health of two providers, and a scan that falls back from one to the other.
use coin_listener.Storage.Sql.{update_where}
use coin_listener.Storage.Sql.Upsert.{upsert}
use coin_listener.Storage.Sql.Order.{order_by, insert_by}
use coin_listener.Prelude.{
  ◌≡◌, ◌↔◌, refl, true, List, [], ◌∷◌, ◌++◌, map, none, some, All, IsIn, ◌==◌, if◌then◌else◌,
}
use coin_listener.Prelude.Int.{ℤ, pos}
use coin_listener.Prelude.Text.{Text, codes, text_eq, contains, starts_with}
use coin_listener.Core.Clock.{Time, seconds}
use coin_listener.Core.Error.{AppResult, ok, err, config}
use coin_listener.Core.Action.{Action}
use coin_listener.Core.Models.{Uuid, Provider, AddressEvent}
use coin_listener.Storage.Catalog.{text_lt}
use coin_listener.Storage.ProviderHealth.{
  Redis, ProviderCandidate, health_of, active_rpc_provider_candidates, try_acquire_provider_qps,
  is_candidate, record_provider_failure, record_provider_success,
}
use coin_listener.Storage.ProviderHealth.Circuit
use coin_listener.Storage.ProviderHealth.Circuit.{
  Answer, health_after, streak, last_answer_at, closed_from, failures_of, disabled_of,
}
use coin_listener.Storage.ProviderHealth.Candidates
use coin_listener.Storage.ProviderHealth.Candidates.{IsActiveRpc, IsClosed}
use coin_listener.Worker.Paging.{is_provider_availability_error}
use coin_listener.Worker.Failover.{
  FailoverState, scan_address, scan_from, try_candidates, after_permit, after_scan,
}
use coin_listener.Worker.Failover.Course.{Course}
use coin_listener.Worker.Failover.Fallback
use coin_listener.Worker.Failover.Fallback.{MayBeAsked, Accounts}

abbrev provider : Uuid → ℤ → Provider
provider id priority = record {
  id = id;
  chain_id = 2;
  provider_type = codes "rpc";
  name = codes "node";
  base_url = codes "https://example.invalid";
  api_key_ref = none;
  priority = priority;
  qps_limit = pos 10;
  timeout_ms = pos 5000;
  status = codes "active";
}

abbrev providers : List Provider
providers = provider 1 (pos 10) ∷ provider 2 (pos 20) ∷ []

abbrev failed_at : Uuid → Time → Answer
failed_at id t = record {
  provider_id = id;
  answered_at = t;
  failure = some (config (codes "evm rpc request failed"));
}

-- Provider 1 fails three times, and provider 2 serves in between.
abbrev history : List Answer
history =
    failed_at 1 (seconds 30)
    ∷ record { provider_id = 2; answered_at = seconds 20; failure = none }
    ∷ failed_at 1 (seconds 20)
    ∷ failed_at 1 (seconds 10)
    ∷ []

health_after-streak_example :
    (failures_of (health_of 1 (health_after history)) ≡ streak 1 history)
    × (disabled_of (health_of 1 (health_after history)) ≡ closed_from 1 history)
health_after-streak_example = Circuit.health_after-streak 1 history

closed_run : closed_from 1 history ≡ some (seconds 330)
unfolding closed_from
closed_run = refl

active_rpc_provider_candidates-IsIn_example :
    IsIn (provider 2 (pos 20)) (
      map
        (λ (c : ProviderCandidate). c.provider)
        (active_rpc_provider_candidates text_lt providers (health_after history) 2 (seconds 40)))
    ↔ (IsIn (provider 2 (pos 20)) providers
        × IsActiveRpc 2 (provider 2 (pos 20))
        × IsClosed 2 history (seconds 40))
active_rpc_provider_candidates-IsIn_example =
    Candidates.active_rpc_provider_candidates-IsIn text_lt providers history 2 (seconds 40)
      (provider 2 (pos 20))

-- A counter that always stands at 1.
abbrev counter : Redis (Unit {0})
counter = record { incr = λ id second r. (ok (pos 1), r); expire = λ id second ttl r. (ok true, r) }

-- The first provider does not answer, the second has no event.
abbrev answers_of : Provider → Action (Unit {0}) (List AddressEvent)
answers_of p s = (if p.id == 1 then err (config (codes "evm rpc request failed")) else ok [], s)

abbrev uuid_text : Uuid → Text
uuid_text id = codes "id"

abbrev state : FailoverState (Unit {0}) (Unit {0})
state = record { health = health_after history; redis = tt; tables = tt }

-- The circuit of provider 1 is closed again, and it fails once more.
abbrev outcome : AppResult (List AddressEvent) × FailoverState (Unit {0}) (Unit {0})
outcome = scan_address counter uuid_text answers_of 2 (seconds 400) text_lt providers state

scan_address-records_example :
    (answers : List Answer) × Course counter uuid_text answers_of 2
      (seconds 400)
      (active_rpc_provider_candidates text_lt providers state.health 2 (seconds 400))
      none
      state.redis
      state.tables
      answers
      outcome.0
      outcome.1.redis
      outcome.1.tables
    × (outcome.1.health ≡ health_after (answers ++ history))
    × All
        (MayBeAsked counter uuid_text answers_of 2 (seconds 400) text_lt providers history)
        answers
    × Accounts counter uuid_text answers_of 2 (seconds 400) outcome.0 answers
scan_address-records_example =
    Fallback.scan_address-records counter uuid_text answers_of 2 (seconds 400) text_lt providers
      state history refl

-- Provider 2 serves, and provider 1 has failed four times since its last success.
fallback_run : (outcome.0 ≡ ok []) × (failures_of (health_of 1 outcome.1.health) ≡ 4)
unfolding scan_address try_acquire_provider_qps is_provider_availability_error contains starts_with
    text_eq scan_from active_rpc_provider_candidates order_by is_candidate health_after
    record_provider_failure upsert record_provider_success update_where insert_by try_candidates
    after_permit after_scan
fallback_run = (refl, refl)
