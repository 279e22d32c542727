-- ===== src/Storage/ScanJobs.antt =====
-- backend/crates/storage/src/scan_jobs.rs: the durable queue of scan jobs.
--
-- A statement runs as a whole on the table that it finds; `now` is NOW(). Of rows that the ORDER BY
-- of the claim does not tell apart, the last in the list is taken. A statement that the connection
-- fails is not run, and the calls below are those that ran. CHECK (max_attempts > 0) of the table is
-- left to the callers, whose limit is positive.
pub mod Claim
pub mod Invariant
pub mod Updates
pub mod First
pub mod Due
use coin_listener.Core.Machine.{i64_max, u16_max}
use coin_listener.Core.Error.{AppError, AppResult, config, err, not_found, ok}
use coin_listener.Prelude.{
  ℕ, Bool, true, false, ◌&&◌, ◌||◌, List, [], ◌∷◌, ◌++◌, Option, none, some, if◌then◌else◌, ltb,
  leb, ◌==◌, any, ◌+◌, suc, zero,
}
use mathlib.Core.Option
use coin_listener.Prelude.Text.{Text, text_eq, codes}
use coin_listener.Core.Error.{database}
use coin_listener.Storage.Postgres.{Postgres}
use coin_listener.Core.Clock.{Time, seconds}
use coin_listener.Core.Models.{Uuid, ScanJob, ScanJobStatus, ScanAddressCandidate, ScanAddressTask}
use coin_listener.Storage.Sql.{update_where, rows_affected}

abbrev pub is_processing : ScanJobStatus → Bool
is_processing ScanJobStatus.processing = true
is_processing _ = false

-- status IN ('pending', 'retryable')
abbrev pub is_waiting : ScanJobStatus → Bool
is_waiting ScanJobStatus.pending = true
is_waiting ScanJobStatus.retryable = true
is_waiting _ = false

-- status IN ('pending', 'retryable', 'processing')
abbrev pub is_active : ScanJobStatus → Bool
is_active s = is_waiting s || is_processing s

-- `column <= now` and `column > now`; a NULL column satisfies neither.
abbrev pub at_most : Option Time → Time → Bool
at_most none now = false
at_most (some t) now = leb t now

abbrev pub later_than : Option Time → Time → Bool
later_than none now = false
later_than (some t) now = ltb now t

abbrev pub is_some_text : Option Text → Text → Bool
is_some_text none w = false
is_some_text (some v) w = text_eq v w

abbrev pub coalesce : Option Text → Text → Option Text
coalesce none d = some d
coalesce (some v) d = some v

-- The guard that RENEW and the three MARK statements share.
unfoldable pub is_held_by : Time → Uuid → Text → ScanJob → Bool
is_held_by now id worker_id j =
    j.id == id
    && is_some_text j.locked_by worker_id
    && is_processing j.status
    && later_than j.lease_expires_at now

-- INSERT_SCHEDULED_SCAN_JOB_QUERY; the unique index lets an address have one active job.
abbrev pub is_active_for : Uuid → ScanJob → Bool
is_active_for address_id j = j.address_id == address_id && is_active j.status

unfoldable pub new_scan_job : Uuid → Time → Uuid → Uuid → Uuid → ℕ → Time → Option Uuid → ScanJob
new_scan_job id now tenant_id address_id chain_id max_attempts next_attempt_at retry_of = record {
  id = id;
  tenant_id = tenant_id;
  address_id = address_id;
  chain_id = chain_id;
  status = ScanJobStatus.pending;
  attempt_count = 0;
  max_attempts = max_attempts;
  next_attempt_at = next_attempt_at;
  locked_at = none;
  locked_by = none;
  lease_expires_at = none;
  last_error = none;
  last_scan_run_id = none;
  retry_of_scan_run_id = retry_of;
  succeeded_at = none;
  dead_lettered_at = none;
  created_at = now;
  updated_at = now;
}

unfoldable pub insert_scheduled_scan_job_in_transaction :
    Uuid → Time → ScanAddressCandidate → ℕ → Time → List ScanJob → Option ScanJob × List ScanJob
unfolding new_scan_job
insert_scheduled_scan_job_in_transaction id now candidate max_attempts next_attempt_at jobs =
    let job =
      new_scan_job id now candidate.tenant_id candidate.id candidate.chain_id max_attempts
        next_attempt_at none in
    if any (is_active_for candidate.id) jobs then (none, jobs) else (some job, jobs ++ job ∷ [])

-- INSERT_RETRY_SCAN_JOB_QUERY: on a conflict a waiting job is made due again, and a job that is
-- being processed stays as it is.
unfoldable pub reset_for_retry : Time → ℕ → Time → Uuid → ScanJob → ScanJob
reset_for_retry now max_attempts next_attempt_at retry_of j = record j {
  status = ScanJobStatus.pending;
  max_attempts = max_attempts;
  next_attempt_at = next_attempt_at;
  retry_of_scan_run_id = some retry_of;
  last_error = none;
  updated_at = now;
}

abbrev pub is_waiting_for : Uuid → ScanJob → Bool
is_waiting_for address_id j = j.address_id == address_id && is_waiting j.status

unfoldable pub first_where : (ScanJob → Bool) → List ScanJob → Option ScanJob
first_where test [] = none
first_where test (j ∷ js) = let rest = first_where test js in if test j then some j else rest

unfoldable pub insert_retry_scan_job :
    Uuid
    → Time
    → Uuid
    → Uuid
    → Uuid
    → Uuid
    → ℕ
    → Time
    → List ScanJob
    → Option ScanJob × List ScanJob
unfolding new_scan_job first_where reset_for_retry
insert_retry_scan_job id now tenant_id address_id chain_id retry_of max_attempts next_attempt_at
      jobs =
    let job =
      new_scan_job id now tenant_id address_id chain_id max_attempts next_attempt_at
        (some retry_of) in
    let reset = reset_for_retry now max_attempts next_attempt_at retry_of in
    if any (is_active_for address_id) jobs
    then (
      Option.map reset (first_where (is_waiting_for address_id) jobs),
      update_where (is_waiting_for address_id) reset jobs,
    )
    else (some job, jobs ++ job ∷ [])

-- RENEW_SCAN_JOB_LEASE_QUERY; the call says whether a row was renewed.
unfoldable pub renewed : Time → ℕ → ScanJob → ScanJob
renewed now lease_ttl_seconds j = record j {
  locked_at = some now;
  lease_expires_at = some (now + seconds lease_ttl_seconds);
  updated_at = now;
}

-- A statement that fails changes nothing.
abbrev pub unless : {A S : Type 0} → Option AppError → A × S → S → AppResult A × S
unless none (value, after) before = (ok value, after)
unless (some e) done before = (err e, before)

abbrev lease_ttl_error : AppError
lease_ttl_error = config (codes "SCAN_LOCK_TTL_SECONDS must fit in i64")

-- Why a lease of `lease_ttl_seconds` cannot be written. The time is computed for the rows that get
-- it: `taken` says whether there are any.
abbrev database_failure : Option Text → Option AppError
database_failure none = none
database_failure (some e) = some (database e)

unfoldable pub lease_failure : Postgres → Time → ℕ → Bool → Option AppError
lease_failure pg now lease_ttl_seconds taken =
    if ltb i64_max lease_ttl_seconds
    then some lease_ttl_error
    else if taken
    then database_failure (pg.lease_error now lease_ttl_seconds)
    else none

unfoldable pub renew_scan_job_lease :
    Postgres → Time → Uuid → Text → ℕ → List ScanJob → AppResult Bool × List ScanJob
unfolding renewed lease_failure
renew_scan_job_lease pg now id worker_id lease_ttl_seconds jobs =
    let held = is_held_by now id worker_id in
    let any_held = ltb 0 (rows_affected held jobs) in
    unless (lease_failure pg now lease_ttl_seconds any_held)
      (any_held, update_where held (renewed now lease_ttl_seconds) jobs) jobs

unfoldable pub ensure_scan_job_updated : ℕ → AppResult (Unit {0})
ensure_scan_job_updated rows = if rows == 0 then err (not_found (codes "scan job")) else ok tt

-- The three MARK statements: they end the lease, if the worker still holds it.
unfoldable pub finish_where :
    Time → Uuid → Text → (ScanJob → ScanJob) → List ScanJob → AppResult (Unit {0}) × List ScanJob
unfolding ensure_scan_job_updated
finish_where now id worker_id set jobs =
    let held = is_held_by now id worker_id in
    (ensure_scan_job_updated (rows_affected held jobs), update_where held set jobs)

unfoldable pub succeeded_row : Time → Option Uuid → ScanJob → ScanJob
succeeded_row now scan_run_id j = record j {
  status = ScanJobStatus.succeeded;
  last_error = none;
  last_scan_run_id = scan_run_id;
  succeeded_at = some now;
  locked_at = none;
  locked_by = none;
  lease_expires_at = none;
  updated_at = now;
}

unfoldable pub mark_scan_job_succeeded :
    Time → Uuid → Text → Option Uuid → List ScanJob → AppResult (Unit {0}) × List ScanJob
unfolding succeeded_row
mark_scan_job_succeeded now id worker_id scan_run_id jobs =
    finish_where now id worker_id (succeeded_row now scan_run_id) jobs

unfoldable pub retryable_row : Time → Time → Text → Option Uuid → ScanJob → ScanJob
retryable_row now next_attempt_at last_error scan_run_id j = record j {
  status = ScanJobStatus.retryable;
  next_attempt_at = next_attempt_at;
  last_error = some last_error;
  last_scan_run_id = scan_run_id;
  locked_at = none;
  locked_by = none;
  lease_expires_at = none;
  updated_at = now;
}

unfoldable pub mark_scan_job_retryable :
    Time
    → Uuid
    → Text
    → Time
    → Text
    → Option Uuid
    → List ScanJob
    → AppResult (Unit {0}) × List ScanJob
unfolding retryable_row
mark_scan_job_retryable now id worker_id next_attempt_at last_error scan_run_id jobs =
    finish_where now id worker_id (retryable_row now next_attempt_at last_error scan_run_id) jobs

unfoldable pub dead_letter_row : Time → Text → Option Uuid → ScanJob → ScanJob
dead_letter_row now last_error scan_run_id j = record j {
  status = ScanJobStatus.dead_letter;
  last_error = some last_error;
  last_scan_run_id = scan_run_id;
  dead_lettered_at = some now;
  locked_at = none;
  locked_by = none;
  lease_expires_at = none;
  updated_at = now;
}

unfoldable pub mark_scan_job_dead_letter :
    Time → Uuid → Text → Text → Option Uuid → List ScanJob → AppResult (Unit {0}) × List ScanJob
unfolding dead_letter_row
mark_scan_job_dead_letter now id worker_id last_error scan_run_id jobs =
    finish_where now id worker_id (dead_letter_row now last_error scan_run_id) jobs

-- The delay before the next attempt; the column keeps the count from being negative.
unfoldable pub scan_job_next_attempt_at : Time → ℕ → Time
scan_job_next_attempt_at now zero = now + seconds 30
scan_job_next_attempt_at now (suc zero) = now + seconds 30
scan_job_next_attempt_at now (suc (suc zero)) = now + seconds 60
scan_job_next_attempt_at now (suc (suc (suc zero))) = now + seconds 300
scan_job_next_attempt_at now (suc (suc (suc (suc zero)))) = now + seconds 900
scan_job_next_attempt_at now _ = now + seconds 3600

unfoldable pub scan_job_should_dead_letter : ℕ → ℕ → Bool
scan_job_should_dead_letter attempt_count max_attempts = leb max_attempts attempt_count

unfoldable pub scan_job_to_task : ScanJob → Time → ScanAddressTask
scan_job_to_task job enqueued_at = record {
  task_id = job.id;
  address_id = job.address_id;
  tenant_id = job.tenant_id;
  chain_id = job.chain_id;
  attempt = if ltb u16_max job.attempt_count then u16_max else job.attempt_count;
  enqueued_at = enqueued_at;
}
