-- ===== src/Storage/Imports/Tasks.antt =====
-- The statements on the tasks and attempts of an import. Columns that none of them changes are left
-- out of the rows; `clock` is NOW().
use coin_listener.Prelude.{
  ℕ, Bool, true, false, not, ◌&&◌, ◌||◌, any, List, Option, none, some, if◌then◌else◌, ◌==◌, find,
}
use mathlib.Core.Option
use coin_listener.Prelude.Text.{Text, text_eq, codes}
use coin_listener.Core.Clock.{Time}
use coin_listener.Core.Error.{AppResult, ok, err, not_found}
use coin_listener.Core.Models.{Uuid}
use coin_listener.Storage.Sql.{update_where, rows_affected}

pub data ImportTaskStatus : Type 0 where
  pending running completed failed cancelled : ImportTaskStatus

pub data ImportAttemptStatus : Type 0 where
  pending success failed skipped : ImportAttemptStatus

pub record ImportTask : Type 0 where
  pub id : Uuid
  pub tenant_id : Uuid
  pub status : ImportTaskStatus
  pub processed_rows : ℕ
  pub success_rows : ℕ
  pub failed_rows : ℕ
  pub locked_at : Option Time
  pub locked_by : Option Text
  pub completed_at : Option Time
  pub updated_at : Time

pub record ImportAttempt : Type 0 where
  pub id : Uuid
  pub tenant_id : Uuid
  pub import_task_id : Uuid
  pub status : ImportAttemptStatus
  pub watched_address_id : Option Uuid
  pub error_code : Option Text
  pub error_message : Option Text
  pub updated_at : Time

pub record ImportTables : Type 0 where
  pub tasks : List ImportTask
  pub attempts : List ImportAttempt

abbrev pub is_pending : ImportAttemptStatus → Bool
is_pending ImportAttemptStatus.pending = true
is_pending _ = false

abbrev pub is_success : ImportAttemptStatus → Bool
is_success ImportAttemptStatus.success = true
is_success _ = false

abbrev pub is_failed : ImportAttemptStatus → Bool
is_failed ImportAttemptStatus.failed = true
is_failed _ = false

abbrev pub is_skipped : ImportAttemptStatus → Bool
is_skipped ImportAttemptStatus.skipped = true
is_skipped _ = false

abbrev pub is_running : ImportTaskStatus → Bool
is_running ImportTaskStatus.running = true
is_running _ = false

abbrev pub is_cancelled : ImportTaskStatus → Bool
is_cancelled ImportTaskStatus.cancelled = true
is_cancelled _ = false

-- status IN ('pending', 'running')
abbrev pub is_open : ImportTaskStatus → Bool
is_open ImportTaskStatus.pending = true
is_open s = is_running s

abbrev pub is_task : Uuid → Uuid → ImportTask → Bool
is_task id tenant_id t = t.id == id && t.tenant_id == tenant_id

abbrev pub is_attempt_of : Uuid → Uuid → ImportAttempt → Bool
is_attempt_of task_id tenant_id a = a.import_task_id == task_id && a.tenant_id == tenant_id

abbrev pub task_of : ImportAttempt → List ImportTask → Option ImportTask
task_of a tasks = find (is_task a.import_task_id a.tenant_id) tasks

-- The guards of the MARK statements; `id` and `worker` are NULL for a mark without a lock.
abbrev pub holds_lock : Option Uuid → Option Text → ImportTask → Bool
holds_lock none none t = true
holds_lock (some id) (some worker) t =
    t.id == id && is_locked_by worker t.locked_by && is_running t.status
  where
    is_locked_by : Text → Option Text → Bool
    is_locked_by worker none = false
    is_locked_by worker (some w) = text_eq w worker
holds_lock _ _ t = false

abbrev pub may_mark_in : Option Uuid → Option Text → ImportAttempt → Option ImportTask → Bool
may_mark_in id worker a none = false
may_mark_in id worker a (some t) =
    (is_pending a.status || (is_skipped a.status && is_cancelled t.status))
    && (holds_lock id worker t || is_cancelled t.status)

unfoldable pub may_mark :
    Option Uuid → Option Text → Uuid → Uuid → List ImportTask → ImportAttempt → Bool
may_mark id worker attempt_id tenant_id tasks a =
    a.id == attempt_id && a.tenant_id == tenant_id && may_mark_in id worker a (task_of a tasks)

abbrev pub in_cancelled : Option ImportTask → Bool
in_cancelled none = false
in_cancelled (some t) = is_cancelled t.status

-- The CASE expressions: an attempt of a cancelled task keeps its outcome.
unfoldable pub marked_success : Time → Uuid → List ImportTask → ImportAttempt → ImportAttempt
marked_success clock address_id tasks a =
    if in_cancelled (task_of a tasks) then record a { updated_at = clock } else record a {
      status = ImportAttemptStatus.success;
      watched_address_id = some address_id;
      error_code = none;
      error_message = none;
      updated_at = clock;
    }

unfoldable pub marked_failed : Time → Text → Text → List ImportTask → ImportAttempt → ImportAttempt
marked_failed clock code message tasks a =
    if in_cancelled (task_of a tasks) then record a { updated_at = clock } else record a {
      status = ImportAttemptStatus.failed;
      error_code = some code;
      error_message = some message;
      updated_at = clock;
    }

unfoldable pub ensure_import_attempt_updated : ℕ → AppResult (Unit {0})
ensure_import_attempt_updated rows =
    if rows == 0 then err (not_found (codes "watched address import attempt")) else ok tt

abbrev pub mark_attempt :
    (ImportAttempt → Bool)
    → (ImportAttempt → ImportAttempt)
    → ImportTables
    → AppResult (Unit {0}) × ImportTables
mark_attempt test set s = (
  ensure_import_attempt_updated (rows_affected test s.attempts),
  record s { attempts = update_where test set s.attempts },
)

unfoldable pub mark_import_attempt_success :
    Time → Uuid → Uuid → Uuid → ImportTables → AppResult (Unit {0}) × ImportTables
mark_import_attempt_success clock tenant_id attempt_id address_id s =
    mark_attempt (may_mark none none attempt_id tenant_id s.tasks)
      (marked_success clock address_id s.tasks) s

-- The mark of `create_watched_address_for_import_attempt`, in its transaction.
unfoldable pub mark_success_with_lock :
    Time → Uuid → Uuid → Text → Uuid → Uuid → ImportTables → AppResult (Unit {0}) × ImportTables
mark_success_with_lock clock tenant_id task_id worker attempt_id address_id s =
    mark_attempt (may_mark (some task_id) (some worker) attempt_id tenant_id s.tasks)
      (marked_success clock address_id s.tasks) s

unfoldable pub mark_import_attempt_failed_with_lock :
    Time
    → Uuid
    → Uuid
    → Option Uuid
    → Option Text
    → Text
    → Text
    → ImportTables
    → AppResult (Unit {0}) × ImportTables
mark_import_attempt_failed_with_lock clock tenant_id attempt_id id worker code message s =
    mark_attempt (may_mark id worker attempt_id tenant_id s.tasks)
      (marked_failed clock code message s.tasks) s

-- `counts` of the REFRESH and CANCEL statements.
abbrev pub with_counts : List ImportAttempt → ImportTask → ImportTask
with_counts attempts t =
    let count = λ (test : ImportAttemptStatus → Bool).
      rows_affected (λ (a : ImportAttempt). is_attempt_of t.id t.tenant_id a && test a.status)
        attempts in
    record t {
      processed_rows = count (λ x. not (is_pending x));
      success_rows = count is_success;
      failed_rows = count is_failed;
    }

-- CANCEL_WATCHED_ADDRESS_IMPORT_ATTEMPTS_QUERY
unfoldable pub is_cancellable : Uuid → Uuid → List ImportTask → ImportAttempt → Bool
is_cancellable task_id tenant_id tasks a =
    is_attempt_of task_id tenant_id a
    && is_pending a.status
    && any (λ (t : ImportTask). is_task a.import_task_id a.tenant_id t && is_open t.status) tasks

unfoldable pub skipped_attempt : Time → ImportAttempt → ImportAttempt
skipped_attempt clock a = record a {
  status = ImportAttemptStatus.skipped;
  error_code = some (codes "cancelled");
  error_message = some (codes "import task cancelled");
  updated_at = clock;
}

abbrev pub coalesce_time : Option Time → Time → Option Time
coalesce_time none t = some t
coalesce_time (some u) t = some u

unfoldable pub cancelled_task : Time → List ImportAttempt → ImportTask → ImportTask
cancelled_task clock attempts t = record (with_counts attempts t) {
  status = ImportTaskStatus.cancelled;
  completed_at = coalesce_time t.completed_at clock;
  locked_at = none;
  locked_by = none;
  updated_at = clock;
}

abbrev pub is_open_task : Uuid → Uuid → ImportTask → Bool
is_open_task id tenant_id t = is_task id tenant_id t && is_open t.status

-- Without a row to return the transaction is rolled back.
abbrev pub committed :
    ImportTables → ImportTables → Option ImportTask → AppResult ImportTask × ImportTables
committed before after none = (err (not_found (codes "watched address import")), before)
committed before after (some t) = (ok t, after)

unfoldable pub cancel_watched_address_import :
    Time → Uuid → Uuid → ImportTables → AppResult ImportTask × ImportTables
cancel_watched_address_import clock tenant_id id s =
    let attempts =
      update_where (is_cancellable id tenant_id s.tasks) (skipped_attempt clock) s.attempts in
    let open_task = find (is_open_task id tenant_id) s.tasks in
    let tasks = update_where (is_open_task id tenant_id) (cancelled_task clock attempts) s.tasks in
    committed s (record { tasks = tasks; attempts = attempts })
      (Option.map (cancelled_task clock attempts) open_task)
