-- ===== src/Worker/Outcome/Finished.antt =====
-- The rows of a job and of a run after a scan, in words of the outcome alone.
use coin_listener.Prelude.{
  ℕ, ◌+◌, ◌*◌, ◌≤◌, ◌<◌, ◌≡◌, refl, Option, none, some, arith, leb, ◌==◌, if◌then◌else◌, min,
  Bool-cases, ◌⊎◌, inl, inr, suc, zero,
}
use coin_listener.Prelude.Int.{pos}
use coin_listener.Prelude.Text.{codes}
use coin_listener.Core.Error.{AppResult, ok, err, error_text}
use coin_listener.Core.Clock.{Time}
use coin_listener.Core.Models.{Uuid, ScanJob, ScanJobStatus, ScanRun, ScanRunStatus}
use coin_listener.Storage.Postgres.{Postgres}
use coin_listener.Storage.ScanJobs
use coin_listener.Storage.ScanRuns
use coin_listener.Worker.Outcome
use coin_listener.Worker.Outcome.{ScanTaskOutcome, locked, scanned, unsupported_chain}

-- The row that a job becomes: succeeded, dead, or waiting for the delay that its attempts call for.
abbrev pub job_after :
    Time → ℕ → ℕ → Option Uuid → AppResult ScanTaskOutcome → Time → ScanJob → ScanJob
job_after now attempts max_attempts run (ok o) at = ScanJobs.succeeded_row now run
job_after now attempts max_attempts run (err e) at =
    if leb max_attempts attempts
    then ScanJobs.dead_letter_row now (error_text e) run
    else ScanJobs.retryable_row now (ScanJobs.scan_job_next_attempt_at at attempts) (error_text e)
        run

-- The row that the run becomes.
module _ (pg : Postgres) (now at : Time) where
  abbrev pub run_after : AppResult ScanTaskOutcome → ScanRun → ScanRun
  run_after (ok o) =
      ScanRuns.finished_run pg (Outcome.scan_task_outcome_log_status o)
        (Outcome.scan_task_event_count o) at none (Outcome.scan_task_update_metadata o) now
  run_after (err e) =
      ScanRuns.finished_run pg ScanRunStatus.failed (pos 0) at (some (error_text e))
        (Outcome.outcome_field (codes "failed")) now

-- The seconds that a job waits after its attempts.
abbrev pub delay_seconds : ℕ → ℕ
delay_seconds n =
    if leb n 1
    then 30
    else if n == 2
    then 60
    else if n == 3
    then 300
    else if n == 4
    then 900
    else 3600

-- `k` is the job `j` without its lease, and with its run.
pub record IsReleased (run : Uuid) (j k : ScanJob) : Type 0 where
  pub id : k.id ≡ j.id
  pub address : k.address_id ≡ j.address_id
  pub attempts : k.attempt_count ≡ j.attempt_count
  pub at_lock : k.locked_at ≡ none
  pub owner : k.locked_by ≡ none
  pub lease : k.lease_expires_at ≡ none
  pub last_run : k.last_scan_run_id ≡ some run

abbrev pub IsJobAfter : Time → ℕ → ℕ → AppResult ScanTaskOutcome → Time → ScanJob → Type 0
IsJobAfter now attempts max_attempts (ok o) at k =
    (k.status ≡ ScanJobStatus.succeeded) × (k.succeeded_at ≡ some now) × (k.last_error ≡ none)
IsJobAfter now attempts max_attempts (err e) at k =
    (k.last_error ≡ some (error_text e))
    × (((max_attempts ≤ attempts)
          × (k.status ≡ ScanJobStatus.dead_letter)
          × (k.dead_lettered_at ≡ some now))
        ⊎ ((attempts < max_attempts)
            × (k.status ≡ ScanJobStatus.retryable)
            × (k.next_attempt_at ≡ at + delay_seconds attempts * 1_000_000)))

-- The status, the count of events and the error of a finished run.
abbrev pub IsRunAfter : AppResult ScanTaskOutcome → ScanRun → Type 0
IsRunAfter (ok (scanned n)) r =
    (r.status ≡ ScanRunStatus.success)
    × (r.event_count ≡ pos (min n 2147483647))
    × (r.error_message ≡ none)
IsRunAfter (ok locked) r =
    (r.status ≡ ScanRunStatus.locked) × (r.event_count ≡ pos 0) × (r.error_message ≡ none)
IsRunAfter (ok (unsupported_chain c)) r =
    (r.status ≡ ScanRunStatus.unsupported) × (r.event_count ≡ pos 0) × (r.error_message ≡ none)
IsRunAfter (err e) r =
    (r.status ≡ ScanRunStatus.failed)
    × (r.event_count ≡ pos 0)
    × (r.error_message ≡ some (error_text e))

next_attempt_delay :
    (at : Time) (n : ℕ) → ScanJobs.scan_job_next_attempt_at at n ≡ at + delay_seconds n * 1_000_000
unfolding ScanJobs.scan_job_next_attempt_at
next_attempt_delay at zero = refl
next_attempt_delay at (suc zero) = refl
next_attempt_delay at (suc (suc zero)) = refl
next_attempt_delay at (suc (suc (suc zero))) = refl
next_attempt_delay at (suc (suc (suc (suc zero)))) = refl
next_attempt_delay at (suc (suc (suc (suc (suc n))))) = ground arith

module _ (now : Time) (attempts max_attempts : ℕ) (run : Uuid) (at : Time) (j : ScanJob) where
  pub job_after-IsReleased :
      (result : AppResult ScanTaskOutcome)
      → IsReleased run j (job_after now attempts max_attempts (some run) result at j)
  unfolding ScanJobs.succeeded_row ScanJobs.dead_letter_row ScanJobs.retryable_row
  job_after-IsReleased (ok o) = record {
    id = refl;
    address = refl;
    attempts = refl;
    at_lock = refl;
    owner = refl;
    lease = refl;
    last_run = refl;
  }
  job_after-IsReleased (err e) = elim (Bool-cases (leb max_attempts attempts)) [
    | inl spent ↦ rw spent (record {
      id = refl;
      address = refl;
      attempts = refl;
      at_lock = refl;
      owner = refl;
      lease = refl;
      last_run = refl;
    })
    | inr left ↦ rw left (record {
      id = refl;
      address = refl;
      attempts = refl;
      at_lock = refl;
      owner = refl;
      lease = refl;
      last_run = refl;
    })
  ]

  pub job_after-IsJobAfter :
      (result : AppResult ScanTaskOutcome)
      → IsJobAfter now attempts max_attempts result at
          (job_after now attempts max_attempts (some run) result at j)
  unfolding ScanJobs.succeeded_row ScanJobs.dead_letter_row ScanJobs.retryable_row
  job_after-IsJobAfter (ok o) = (refl, refl, refl)
  job_after-IsJobAfter (err e) = elim (Bool-cases (leb max_attempts attempts)) [
    | inl spent ↦ rw spent (refl, inl (ground arith, refl, refl))
    | inr left ↦ rw left (refl, inr (ground arith, refl, next_attempt_delay at attempts))
  ]

pub run_after-IsRunAfter :
    (pg : Postgres) (now at : Time) (result : AppResult ScanTaskOutcome) (r : ScanRun)
    → IsRunAfter result (run_after pg now at result r)
unfolding ScanRuns.finished_run Outcome.scan_task_outcome_log_status Outcome.scan_task_event_count
run_after-IsRunAfter pg now at (ok (scanned n)) r = (refl, refl, refl)
run_after-IsRunAfter pg now at (ok locked) r = (refl, refl, refl)
run_after-IsRunAfter pg now at (ok (unsupported_chain c)) r = (refl, refl, refl)
run_after-IsRunAfter pg now at (err e) r = (refl, refl, refl)

pub run_after-id :
    (pg : Postgres) (now at : Time) (result : AppResult ScanTaskOutcome) (r : ScanRun)
    → (run_after pg now at result r).id ≡ r.id
unfolding ScanRuns.finished_run
run_after-id pg now at (ok o) r = refl
run_after-id pg now at (err e) r = refl

pub run_after-finished :
    (pg : Postgres) (now at : Time) (result : AppResult ScanTaskOutcome) (r : ScanRun)
    → (run_after pg now at result r).finished_at ≡ some at
unfolding ScanRuns.finished_run
run_after-finished pg now at (ok o) r = refl
run_after-finished pg now at (err e) r = refl
