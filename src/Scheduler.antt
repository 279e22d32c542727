-- ===== src/Scheduler.antt =====
-- backend/crates/scheduler/src/lib.rs: a tick of the scheduler gives each address that is due a scan
-- job, one transaction for each, and wakes the workers.
pub mod Rounds
pub mod Drain
pub mod Table
use coin_listener.Prelude.{
  ℕ, ◌+◌, suc, zero, Bool, true, false, List, Option, none, some, if◌then◌else◌,
}
use coin_listener.Prelude.Int.{ℤ, pos, negsuc}
use coin_listener.Prelude.Text.{Text}
use coin_listener.Core.Clock.{Time}
use coin_listener.Core.Error.{AppResult, ok, err}
use coin_listener.Core.Action.{Action, pure, lift, ◌>>=◌, bind_result}
use coin_listener.Core.Models.{Uuid, ScanJob, ScanAddressCandidate, ScanAddressTask}
use coin_listener.Storage.Addresses.{
  WatchedAddress, claim_one_due_scan_address_for_update, mark_claimed_scan_enqueued,
  next_scan_at_from,
}
use coin_listener.Storage.ScanJobs.{insert_scheduled_scan_job_in_transaction}
use coin_listener.Storage.ScanQueue

unfoldable pub build_scan_task : Uuid → ScanAddressCandidate → Time → ScanAddressTask
build_scan_task id candidate now = record {
  task_id = id;
  address_id = candidate.id;
  tenant_id = candidate.tenant_id;
  chain_id = candidate.chain_id;
  attempt = 1;
  enqueued_at = now;
}

pub record SchedulerTables : Type 0 where
  pub addresses : List WatchedAddress
  pub jobs : List ScanJob
  pub signals : List Text

-- What the database and Redis answer: the id of the row that comes next, NOW(), and whether the
-- connection to Redis fails.
pub record Services : Type 0 where
  pub job_id : List ScanJob → Uuid
  pub clock : SchedulerTables → Time
  pub redis_failure : SchedulerTables → Option Text

-- A transaction found no address (`none`), or says whether it inserted a job.
abbrev pub rolled_back_on_error :
    SchedulerTables
    → AppResult (Option Bool) × SchedulerTables
    → AppResult (Option Bool) × SchedulerTables
rolled_back_on_error before (ok inserted, after) = (ok inserted, after)
rolled_back_on_error before (err e, after) = (err e, before)

abbrev pub is_inserted : Option ScanJob → Bool
is_inserted none = false
is_inserted (some job) = true

-- The signal is sent after the commit, and its failure is only logged.
unfoldable pub after_commit : Option Text → SchedulerTables → SchedulerTables
after_commit failure s = record s { signals = (ScanQueue.signal failure s.signals).1 }

module _ (services : Services) (job_max_attempts : ℕ) (now : Time) where
  unfoldable pub enqueue_candidate : ScanAddressCandidate → Action SchedulerTables (Option Bool)
  enqueue_candidate candidate s =
      let (job, jobs) =
        insert_scheduled_scan_job_in_transaction (services.job_id s.jobs) (services.clock s)
          candidate job_max_attempts now s.jobs in
      let (r, addresses) =
        mark_claimed_scan_enqueued (services.clock s) candidate.id
          (next_scan_at_from now candidate.scan_interval_seconds) s.addresses in
      bind_result (r, record s { addresses = addresses; jobs = jobs })
        (λ u. pure (some (is_inserted job)))

  unfoldable pub enqueue_claimed :
      Option ScanAddressCandidate → Action SchedulerTables (Option Bool)
  enqueue_claimed none s = (ok none, s)
  enqueue_claimed (some candidate) s = rolled_back_on_error s (enqueue_candidate candidate s)

  -- One pass of the loop's body, up to its commit or its rollback.
  unfoldable pub enqueue_one : Action SchedulerTables (Option Bool)
  enqueue_one s = enqueue_claimed (claim_one_due_scan_address_for_update now s.jobs s.addresses) s

  abbrev pub after_round :
      (ℕ → Action SchedulerTables ℕ) → ℕ → Option Bool → Action SchedulerTables ℕ
  after_round rest enqueued none s = (ok enqueued, s)
  after_round rest enqueued (some false) s = rest enqueued s
  after_round rest enqueued (some true) s =
      rest (enqueued + 1) (after_commit (services.redis_failure s) s)

  unfoldable pub enqueue_loop : ℕ → ℕ → Action SchedulerTables ℕ
  enqueue_loop zero enqueued s = (ok enqueued, s)
  enqueue_loop (suc k) enqueued s =
      bind_result (enqueue_one s) (after_round (enqueue_loop k) enqueued)

  -- `0..batch_size` is empty for a negative size.
  unfoldable pub enqueue_due_addresses : ℤ → Action SchedulerTables ℕ
  enqueue_due_addresses (pos batch_size) = enqueue_loop batch_size 0
  enqueue_due_addresses (negsuc n) = enqueue_loop 0 0
