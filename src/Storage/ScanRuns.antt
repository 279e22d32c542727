-- ===== src/Storage/ScanRuns.antt =====
-- backend/crates/storage/src/scan_runs.rs: the audit rows of scans. A row is opened under a live
-- lease and linked to its job, and is finished by its id.
use coin_listener.Prelude.{
  Bool, true, false, List, [], ◌∷◌, ◌++◌, Option, none, some, if◌then◌else◌, ltb, ◌==◌,
}
use coin_listener.Prelude.Int.{ℤ, pos}
use coin_listener.Prelude.Text.{Text, codes}
use coin_listener.Prelude.Json.{Json}
use coin_listener.Core.Error.{not_found, AppResult, ok, err}
use coin_listener.Core.Clock.{Time}
use coin_listener.Core.Models.{
  Uuid, ScanJob, ScanRun, ScanRunStatus, ScanAddressTask, ScanAddressContext,
}
use coin_listener.Storage.Postgres.{Postgres}
use coin_listener.Storage.Sql.{update_where, rows_affected}
use coin_listener.Storage.ScanJobs.{is_held_by}
use coin_listener.Storage.ScanJobs.Claim.{ScanTables}

-- FINISH_SCAN_RUN_QUERY
module _ (pg : Postgres) where
  unfoldable pub finished_run :
      ScanRunStatus → ℤ → Time → Option Text → Json → Time → ScanRun → ScanRun
  finished_run status event_count finished_at error_message metadata now r = record r {
    status = status;
    event_count = event_count;
    finished_at = some finished_at;
    duration_ms = some (pg.duration_ms r.started_at finished_at);
    error_message = error_message;
    metadata = pg.jsonb_concat r.metadata metadata;
    updated_at = now;
  }

  -- The statuses are those that `validate_scan_run_status` accepts.
  unfoldable pub finish_scan_run_with_executor :
      Time
      → Uuid
      → ScanRunStatus
      → ℤ
      → Time
      → Option Text
      → Json
      → List ScanRun
      → AppResult (Unit {0}) × List ScanRun
  unfolding finished_run
  finish_scan_run_with_executor now id status event_count finished_at error_message metadata runs =
      let is_run = λ (r : ScanRun). r.id == id in
      if ltb 0 (rows_affected is_run runs)
      then (
        ok tt,
        update_where is_run (finished_run status event_count finished_at error_message metadata now)
            runs,
      )
      else (err (not_found (codes "scan run")), runs)

-- INSERT_SCAN_RUN_QUERY, with the id that the row gets.
unfoldable pub new_run : Uuid → Time → ScanAddressTask → ScanAddressContext → Time → Json → ScanRun
new_run id now task context started_at metadata = record {
  id = id;
  tenant_id = context.tenant_id;
  task_id = task.task_id;
  address_id = context.id;
  chain_id = context.chain_id;
  chain_type = context.chain_type;
  status = ScanRunStatus.running;
  event_count = pos 0;
  started_at = started_at;
  finished_at = none;
  duration_ms = none;
  error_message = none;
  metadata = metadata;
  created_at = now;
  updated_at = now;
}

unfoldable pub linked : Uuid → Time → ScanJob → ScanJob
linked run_id now j = record j { last_scan_run_id = some run_id; updated_at = now }

unfoldable pub create_scan_run :
    Uuid
    → Time
    → ScanAddressTask
    → ScanAddressContext
    → Text
    → Time
    → Json
    → ScanTables
    → AppResult ScanRun × ScanTables
unfolding new_run linked
create_scan_run id now task context worker_id started_at metadata db =
    let held = is_held_by now task.task_id worker_id in
    let run = new_run id now task context started_at metadata in
    if ltb 0 (rows_affected held db.jobs)
    then (
      ok run,
      record db { jobs = update_where held (linked id now) db.jobs; runs = db.runs ++ run ∷ [] },
    )
    else (err (not_found (codes "scan job")), db)

unfoldable pub scan_run_status_allows_retry : ScanRunStatus → Bool
scan_run_status_allows_retry ScanRunStatus.failed = true
scan_run_status_allows_retry ScanRunStatus.unsupported = true
scan_run_status_allows_retry _ = false
