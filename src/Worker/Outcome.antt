-- ===== src/Worker/Outcome.antt =====
-- The end of a scan in backend/crates/worker/src/lib.rs: its outcome, and the statements that finish
-- the job and its run in one transaction.
pub mod Finished
pub mod Branches
use coin_listener.Prelude.{
  ℕ, ◌≡◌, Bool, true, false, List, [], ◌∷◌, ◌++◌, Option, none, some, if◌then◌else◌, ltb, ◌==◌, min,
}
use coin_listener.Prelude.Int.{ℤ, pos}
use coin_listener.Prelude.Text.{Text, codes, text_eq}
use coin_listener.Prelude.Json.{Json, object, end, field, string}
use coin_listener.Core.Error.{AppError, AppResult, ok, err, error_text}
use coin_listener.Core.Clock.{Time}
use coin_listener.Core.Machine.{i32_max}
use coin_listener.Core.Models.{Uuid, ScanJob, ScanRunStatus}
use coin_listener.Storage.Postgres.{Postgres}
use coin_listener.Storage.ScanJobs.{
  mark_scan_job_succeeded, mark_scan_job_retryable, mark_scan_job_dead_letter,
  scan_job_should_dead_letter, scan_job_next_attempt_at,
}
use coin_listener.Storage.ScanJobs.Claim.{ScanTables}
use coin_listener.Storage.ScanRuns.{finish_scan_run_with_executor}

pub data ScanPlan : Type 0 where
  evm_native_balance tron btc : ScanPlan
  unsupported : Text → ScanPlan

pub data ScanTaskOutcome : Type 0 where
  locked : ScanTaskOutcome
  scanned : ℕ → ScanTaskOutcome
  unsupported_chain : Text → ScanTaskOutcome

unfoldable pub scan_plan_for_chain : Text → ScanPlan
scan_plan_for_chain chain_type =
    if text_eq chain_type (codes "evm")
    then evm_native_balance
    else if text_eq chain_type (codes "tron")
    then tron
    else if text_eq chain_type (codes "utxo")
    then btc
    else unsupported chain_type

unfoldable pub scan_task_outcome_log_status : ScanTaskOutcome → ScanRunStatus
scan_task_outcome_log_status locked = ScanRunStatus.locked
scan_task_outcome_log_status (scanned n) = ScanRunStatus.success
scan_task_outcome_log_status (unsupported_chain c) = ScanRunStatus.unsupported

unfoldable pub scan_task_event_count : ScanTaskOutcome → ℤ
scan_task_event_count (scanned n) = pos (min n i32_max)
scan_task_event_count locked = pos 0
scan_task_event_count (unsupported_chain c) = pos 0

abbrev pub outcome_field : Text → Json
outcome_field t = object (field (codes "outcome") (string t) end)

unfoldable pub scan_task_update_metadata : ScanTaskOutcome → Json
scan_task_update_metadata (scanned n) = outcome_field (codes "scanned")
scan_task_update_metadata locked = outcome_field (codes "locked")
scan_task_update_metadata (unsupported_chain c) = object (
    field (codes "outcome") (string (codes "unsupported"))
      (field (codes "chain_type") (string c) end))

module _ (pg : Postgres) where
  unfoldable pub finish_scan_run_for_result_with_executor :
      Time
      → Uuid
      → AppResult ScanTaskOutcome
      → Time
      → ScanTables
      → AppResult (Unit {0}) × ScanTables
  finish_scan_run_for_result_with_executor now run_id (ok outcome) finished_at db =
      let (r, runs) =
        finish_scan_run_with_executor pg now run_id (scan_task_outcome_log_status outcome)
          (scan_task_event_count outcome) finished_at none (scan_task_update_metadata outcome)
          db.runs in
      (r, record db { runs = runs })
  finish_scan_run_for_result_with_executor now run_id (err error) finished_at db =
      let (r, runs) =
        finish_scan_run_with_executor pg now run_id ScanRunStatus.failed (pos 0) finished_at
          (some (error_text error)) (outcome_field (codes "failed")) db.runs in
      (r, record db { runs = runs })

-- `finish_scan_job_for_result`, and its copy that runs in a transaction.
unfoldable pub finish_scan_job_for_result :
    Time
    → Uuid
    → Text
    → ℕ
    → ℕ
    → Option Uuid
    → AppResult ScanTaskOutcome
    → Time
    → List ScanJob
    → AppResult (Unit {0}) × List ScanJob
finish_scan_job_for_result now id worker_id attempts max_attempts run_id (ok outcome) at jobs =
    mark_scan_job_succeeded now id worker_id run_id jobs
finish_scan_job_for_result now id worker_id attempts max_attempts run_id (err error) at jobs =
    if scan_job_should_dead_letter attempts max_attempts
    then mark_scan_job_dead_letter now id worker_id (error_text error) run_id jobs
    else mark_scan_job_retryable now id worker_id (scan_job_next_attempt_at at attempts)
        (error_text error) run_id jobs

-- A transaction that returns an error is rolled back.
abbrev pub commit :
    ScanTables → AppResult (Unit {0}) → ScanTables → AppResult (Unit {0}) × ScanTables
commit before (ok u) after = (ok u, after)
commit before (err e) after = (err e, before)

unfoldable pub in_transaction :
    (ScanTables → AppResult (Unit {0}) × ScanTables)
    → ScanTables
    → AppResult (Unit {0}) × ScanTables
in_transaction body db = let (r, after) = body db in commit db r after

unfoldable pub then_run :
    AppResult (Unit {0}) × ScanTables
    → (ScanTables → AppResult (Unit {0}) × ScanTables)
    → AppResult (Unit {0}) × ScanTables
then_run (ok u, db) next = next db
then_run (err e, db) next = (err e, db)

module _ (pg : Postgres) where
  unfoldable pub finish_scan_job_and_run_for_result :
      Time
      → Uuid
      → Text
      → ℕ
      → ℕ
      → Option Uuid
      → AppResult ScanTaskOutcome
      → Time
      → ScanTables
      → AppResult (Unit {0}) × ScanTables
  unfolding in_transaction then_run
  finish_scan_job_and_run_for_result now id worker_id attempts max_attempts none result at db =
      let (r, jobs) =
        finish_scan_job_for_result now id worker_id attempts max_attempts none result at db.jobs in
      (r, record db { jobs = jobs })
  finish_scan_job_and_run_for_result now id worker_id attempts max_attempts (some run) result at
        db =
      in_transaction
        (λ start.
          let (r, jobs) =
            finish_scan_job_for_result now id worker_id attempts max_attempts (some run) result at
              start.jobs in
          then_run (r, record start { jobs = jobs })
            (finish_scan_run_for_result_with_executor pg now run result at))
        db
