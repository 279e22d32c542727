-- ===== src/Worker/Queue.antt =====
-- The life of the scan queue: the statements that the scheduler, the retry route and the workers run
-- on it, in any order (backend/crates/scheduler/src/lib.rs, backend/crates/worker/src/lib.rs).
pub mod Order
pub mod Lease
use coin_listener.Prelude.{ℕ, ◌<◌, ◌≡◌, ◌≢◌, Bool, true, List, [], ◌∷◌, map, Option, IsIn}
use coin_listener.Prelude.Text.{Text}
use coin_listener.Prelude.Json.{Json}
use coin_listener.Core.Error.{AppResult}
use coin_listener.Core.Clock.{Time}
use coin_listener.Core.Models.{
  Uuid, ScanJob, ScanAddressCandidate, ScanAddressTask, ScanAddressContext,
}
use coin_listener.Storage.Postgres.{Postgres}
use coin_listener.Storage.Sql.{rows_affected}
use coin_listener.Storage.ScanJobs
use coin_listener.Storage.ScanJobs.Claim.{ScanTables, claim_due_scan_job}
use coin_listener.Storage.ScanJobs.Invariant.{has_id}
use coin_listener.Storage.ScanRuns.{create_scan_run}
use coin_listener.Worker.Outcome.{ScanTaskOutcome, finish_scan_job_and_run_for_result}

-- A statement, with what its caller passes; `schedule` and `retry` carry the id that the row gets.
pub data Op : Type 0 where
  schedule : Uuid → ScanAddressCandidate → Time → Op
  retry : Uuid → Uuid → Uuid → Uuid → Uuid → Time → Op
  claim : Text → ℕ → Op
  renew : Uuid → Text → ℕ → Op
  start_run : Uuid → ScanAddressTask → ScanAddressContext → Text → Time → Json → Op
  finish : Uuid → Text → ℕ → ℕ → Option Uuid → AppResult ScanTaskOutcome → Time → Op

abbrev set_jobs : ScanTables → List ScanJob → ScanTables
set_jobs db jobs = record db { jobs = jobs }

module _ (pg : Postgres) (limit : ℕ) where
  unfoldable pub run_op : Time → Op → ScanTables → ScanTables
  run_op now (schedule id c t) db =
      set_jobs db (ScanJobs.insert_scheduled_scan_job_in_transaction id now c limit t db.jobs).1
  run_op now (retry id tenant address chain run t) db =
      set_jobs db (ScanJobs.insert_retry_scan_job id now tenant address chain run limit t db.jobs).1
  run_op now (claim w ttl) db = (claim_due_scan_job pg now w ttl db).1
  run_op now (renew id w ttl) db =
      set_jobs db (ScanJobs.renew_scan_job_lease pg now id w ttl db.jobs).1
  run_op now (start_run id task context w t metadata) db =
      (create_scan_run id now task context w t metadata db).1
  run_op now (finish id w attempts max_attempts run result t) db =
      (finish_scan_job_and_run_for_result pg now id w attempts max_attempts run result t db).1

-- What the callers see to: generated ids are fresh, and a worker passes on the counts of the job
-- of the table that it holds.
abbrev pub IsAdmissible : ℕ → Time → Op → ScanTables → Type 0
IsAdmissible limit now (schedule id c t) db = rows_affected (has_id id) db.jobs ≡ 0
IsAdmissible limit now (retry id tenant address chain run t) db =
    rows_affected (has_id id) db.jobs ≡ 0
IsAdmissible limit now (finish id w attempts max_attempts run result t) db =
    (max_attempts ≡ limit)
    × ((j : ScanJob)
        → IsIn j db.jobs
        → ScanJobs.is_held_by now id w j ≡ true
        → j.attempt_count ≡ attempts)
IsAdmissible limit now _ db = Unit

abbrev pub empty_tables : ScanTables
empty_tables = record { jobs = []; runs = [] }

-- The tables that the statements can lead to, from `from`, where `P` holds of each statement.
pub data Reach (pg : Postgres) (limit : ℕ) (P : Time → Op → Type 0) (from : ScanTables)
    : ScanTables → Type 0 where
  here : Reach pg limit P from from
  step :
      {db : ScanTables} (now : Time) (op : Op)
      → Reach pg limit P from db
      → P now op
      → IsAdmissible limit now op db
      → Reach pg limit P from (run_op pg limit now op db)
