-- ===== src/Tests/ImportTasks.antt =====
-- A cancelled import, and a late mark of a worker.
use coin_listener.Prelude.{refl, [], ◌∷◌, none, some, head}
use coin_listener.Prelude.Text.{codes}
use coin_listener.Storage.Imports.Tasks.{
  ImportTables, ImportTask, ImportTaskStatus, ImportAttempt, ImportAttemptStatus,
}
use coin_listener.Storage.Imports.Outcomes.{
  Reach, here, step, run_op, cancel, success_with_lock, Keeps, Reach-Keeps,
}

abbrev task : ImportTask
task = record {
  id = 4;
  tenant_id = 1;
  status = ImportTaskStatus.running;
  processed_rows = 1;
  success_rows = 0;
  failed_rows = 1;
  locked_at = some 90;
  locked_by = some (codes "alice");
  completed_at = none;
  updated_at = 90;
}

abbrev failed_attempt : ImportAttempt
failed_attempt = record {
  id = 9;
  tenant_id = 1;
  import_task_id = 4;
  status = ImportAttemptStatus.failed;
  watched_address_id = none;
  error_code = some (codes "validation");
  error_message = some (codes "invalid BTC address");
  updated_at = 80;
}

abbrev import_tables : ImportTables
import_tables = record { tasks = task ∷ []; attempts = failed_attempt ∷ [] }

abbrev late : Reach import_tables (
    run_op 110 (success_with_lock 1 4 (codes "alice") 9 77) (run_op 100 (cancel 1 4) import_tables))
late = step 110 (success_with_lock 1 4 (codes "alice") 9 77) (step 100 (cancel 1 4) here)

Reach-Keeps_example :
    Keeps failed_attempt
      (run_op 110
        (success_with_lock 1 4 (codes "alice") 9 77)
        (run_op 100 (cancel 1 4) import_tables)).attempts
Reach-Keeps_example = Reach-Keeps import_tables _ failed_attempt late head refl
