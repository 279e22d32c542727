-- ===== src/Scheduler/Table.antt =====
-- A tick keeps the queue of jobs in order, however it ends.
use coin_listener.Prelude.{ℕ, zero, suc, ◌+◌, ◌<◌, ◌≡◌, Option, none, some, Bool, true, false, List}
use coin_listener.Prelude.Int.{ℤ, pos, negsuc}
use coin_listener.Core.Error.{AppResult, ok, err}
use coin_listener.Core.Action.{bind_result, pure}
use coin_listener.Core.Clock.{Time}
use coin_listener.Core.Models.{ScanJob, ScanAddressCandidate}
use coin_listener.Storage.Sql.{rows_affected}
use coin_listener.Storage.Addresses.{
  claim_one_due_scan_address_for_update, mark_claimed_scan_enqueued, next_scan_at_from,
  WatchedAddress,
}
use coin_listener.Storage.ScanJobs.Invariant.{IsTable, has_id}
use coin_listener.Storage.ScanJobs.Updates.{insert_scheduled-IsTable}
use coin_listener.Storage.ScanJobs.{insert_scheduled_scan_job_in_transaction}
use coin_listener.Scheduler
use coin_listener.Scheduler.{
  SchedulerTables, Services, enqueue_candidate, enqueue_claimed, enqueue_one, enqueue_loop,
  after_round, after_commit, rolled_back_on_error, is_inserted,
}

module _ (services : Services) (limit : ℕ) (now : Time) (positive : 0 < limit)
    (fresh : (jobs : List ScanJob) → rows_affected (has_id (services.job_id jobs)) jobs ≡ 0) where
  enqueue_claimed-IsTable :
      (c : Option ScanAddressCandidate) (s : SchedulerTables)
      → IsTable limit s.jobs
      → IsTable limit (enqueue_claimed services limit now c s).1.jobs
  unfolding enqueue_claimed enqueue_candidate
  enqueue_claimed-IsTable none s h = h
  enqueue_claimed-IsTable (some c) s h =
      rolled
        (mark_claimed_scan_enqueued (services.clock s) c.id
          (next_scan_at_from now c.scan_interval_seconds) s.addresses)
        (insert_scheduled_scan_job_in_transaction (services.job_id s.jobs) (services.clock s) c
          limit now s.jobs)
        (insert_scheduled-IsTable limit (services.job_id s.jobs) (services.clock s) c now s.jobs
          positive (fresh s.jobs) h)
    where
      rolled :
          (marked : AppResult (Unit {0}) × List WatchedAddress)
          (inserted : Option ScanJob × List ScanJob)
          → IsTable limit inserted.1
          → IsTable limit
              (rolled_back_on_error s (
                bind_result
                  (marked.0, record s { addresses = marked.1; jobs = inserted.1 })
                  (λ u. pure (some (is_inserted inserted.0))))).1.jobs
      rolled (ok u, addresses) inserted g = g
      rolled (err x, addresses) inserted g = h

  enqueue_one-IsTable :
      (s : SchedulerTables)
      → IsTable limit s.jobs
      → IsTable limit (enqueue_one services limit now s).1.jobs
  unfolding enqueue_one
  enqueue_one-IsTable s h =
      enqueue_claimed-IsTable (claim_one_due_scan_address_for_update now s.jobs s.addresses) s h

  enqueue_loop-IsTable :
      (k e : ℕ) (s : SchedulerTables)
      → IsTable limit s.jobs
      → IsTable limit (enqueue_loop services limit now k e s).1.jobs
  unfolding enqueue_loop after_commit
  enqueue_loop-IsTable zero e s h = h
  enqueue_loop-IsTable (suc k) e s h =
      after (enqueue_one services limit now s) (enqueue_one-IsTable s h)
        (λ f t. enqueue_loop-IsTable k f t)
    where
      after :
          (p : AppResult (Option Bool) × SchedulerTables)
          → IsTable limit p.1.jobs
          → ((f : ℕ) (t : SchedulerTables)
              → IsTable limit t.jobs
              → IsTable limit (enqueue_loop services limit now k f t).1.jobs)
          → IsTable limit
              (bind_result p
                (after_round services limit now (enqueue_loop services limit now k) e)).1.jobs
      after (err x, t) g rest = g
      after (ok none, t) g rest = g
      after (ok (some false), t) g rest = rest e t g
      after (ok (some true), t) g rest = rest (e + 1) (after_commit (services.redis_failure t) t) g

  -- With a positive attempt limit and fresh ids, a tick of any batch size leaves the queue in order,
  -- whether it returns or fails: ids are unique, and every address has at most one active job.
  pub enqueue_due_addresses-IsTable :
      (batch_size : ℤ) (s : SchedulerTables)
      → IsTable limit s.jobs
      → IsTable limit (Scheduler.enqueue_due_addresses services limit now batch_size s).1.jobs
  unfolding Scheduler.enqueue_due_addresses
  enqueue_due_addresses-IsTable (pos batch_size) s h = enqueue_loop-IsTable batch_size 0 s h
  enqueue_due_addresses-IsTable (negsuc n) s h = enqueue_loop-IsTable 0 0 s h
