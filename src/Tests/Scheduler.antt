-- ===== src/Tests/Scheduler.antt =====
-- Ticks of the scheduler, and the signal that wakes a worker.
use coin_listener.Prelude.{
  ℕ, ◌≡◌, ◌≤◌, refl, Bool, true, false, List, [], ◌∷◌, none, some, arith, head, ◌+◌, ◌<◌,
}
use coin_listener.Prelude.Int.{pos}
use coin_listener.Prelude.Text.{Text, codes, text_eq}
use coin_listener.Core.Error.{ok}
use coin_listener.Core.Models.{ScanJob}
use coin_listener.Storage.Addresses.{WatchedAddress, is_due, is_claimable}
use coin_listener.Storage.ScanJobs.Invariant.{IsTable, has_id}
use coin_listener.Storage.ScanQueue.{is_wake, signal, wait_for_signal}
use coin_listener.Storage.ScanQueue.Wake.{wait_for_signal-signal}
use coin_listener.Storage.Sql.{rows_affected}
use coin_listener.Scheduler
use coin_listener.Scheduler.{SchedulerTables, Services}
use coin_listener.Scheduler.Rounds.{due_count, is_served}
use coin_listener.Scheduler.Drain.{
  IsTick, enqueue_due_addresses-IsTick, enqueue_due_addresses-serves,
}
use coin_listener.Scheduler.Table.{enqueue_due_addresses-IsTable}

abbrev address : ℕ → ℕ → WatchedAddress
address id next = record {
  id = id;
  tenant_id = 1;
  chain_id = 2;
  address = codes "a";
  label = none;
  priority = codes "normal";
  scan_interval_seconds = pos 60;
  transfer_filter_enabled = true;
  balance_change_filter_enabled = true;
  status = codes "active";
  last_scanned_at = none;
  next_scan_at = some next;
  created_at = 0;
  updated_at = 0;
}

-- Ids above those that are there.
abbrev next_id : List ScanJob → ℕ
next_id [] = 1
next_id (j ∷ js) = j.id + next_id js

next_id-above : (js : List ScanJob) (n : ℕ) → next_id js ≤ n → rows_affected (has_id n) js ≡ 0
unfolding rows_affected
next_id-above [] n h = refl
next_id-above (j ∷ js) n h = ground (arith, next_id-above js n, next_id_pos js)
  where
    next_id_pos : (js : List ScanJob) → 0 < next_id js
    next_id_pos [] = omega arith
    next_id_pos (j ∷ js) = omega (arith, next_id_pos js)

abbrev services : Services
services = record { job_id = next_id; clock = λ s. 100; redis_failure = λ s. none }

abbrev two_due : SchedulerTables
two_due = record {
  addresses = address 7 50 ∷ address 8 90 ∷ address 9 300 ∷ [];
  jobs = [];
  signals = [];
}

enqueue_due_addresses-IsTick_example :
    (n : ℕ) × (t : SchedulerTables) × (Scheduler.enqueue_due_addresses services 3 100
        (pos 10)
        two_due
      ≡ (ok n, t))
    × IsTick 100 10 two_due n t
enqueue_due_addresses-IsTick_example = enqueue_due_addresses-IsTick services 3 100 10 two_due

two_are_due : due_count 100 two_due ≤ 10
unfolding rows_affected is_claimable is_due text_eq
two_are_due = omega arith

seven_is_due : is_due 100 (address 7 50) ≡ true
unfolding is_due text_eq
seven_is_due = refl

enqueue_due_addresses-serves_example :
    is_served (Scheduler.enqueue_due_addresses services 3 100 (pos 10) two_due).1 7 ≡ true
enqueue_due_addresses-serves_example =
    enqueue_due_addresses-serves services 3 100 10 two_due two_are_due (address 7 50) head
      seven_is_due

no_jobs-IsTable : IsTable 3 []
unfolding rows_affected
no_jobs-IsTable = record { rows = tt; ids = λ id. omega arith; active = λ a. omega arith }

enqueue_due_addresses-IsTable_example :
    IsTable 3 (Scheduler.enqueue_due_addresses services 3 100 (pos 10) two_due).1.jobs
enqueue_due_addresses-IsTable_example =
    enqueue_due_addresses-IsTable services 3 100 (omega arith)
      (λ jobs. next_id-above jobs (next_id jobs) (omega arith)) (pos 10) two_due no_jobs-IsTable

abbrev no_task : Text → Bool
no_task v = false

one_wake : rows_affected is_wake (codes "wake" ∷ []) ≤ 1
unfolding rows_affected text_eq
one_wake = omega arith

wait_for_signal-signal_example :
    (rest : List Text) × (wait_for_signal no_task none (signal none (codes "wake" ∷ [])).1
      ≡ (ok true, rest))
    × (rows_affected is_wake rest ≤ 1)
wait_for_signal-signal_example =
    wait_for_signal-signal no_task (codes "wake" ∷ []) one_wake (λ v m. refl)
