-- ===== src/Storage/ScanJobs/Claim.antt =====
-- CLAIM_DUE_SCAN_JOB_QUERY and `claim_due_scan_job` of backend/crates/storage/src/scan_jobs.rs: one
-- statement dead-letters the jobs whose last lease ran out, takes the job that is due first, and
-- closes the runs that the lost leases left open.
use coin_listener.Prelude.{
  ℕ, ◌+◌, Bool, true, false, ◌&&◌, ◌||◌, List, [], ◌∷◌, map, Option, none, some, if◌then◌else◌, ltb,
  leb, ◌==◌,
}
use mathlib.Core.Option
use coin_listener.Prelude.Text.{Text, codes}
use coin_listener.Prelude.Json.{object, end, field, string, bool}
use coin_listener.Core.Error.{AppResult}
use coin_listener.Core.Clock.{Time, seconds}
use coin_listener.Core.Models.{ScanJob, ScanJobStatus, ScanRun, ScanRunStatus}
use coin_listener.Storage.Postgres.{Postgres}
use coin_listener.Storage.ScanJobs.{
  unless, lease_failure, is_processing, is_waiting, at_most, coalesce,
}

pub record ScanTables : Type 0 where
  pub jobs : List ScanJob
  pub runs : List ScanRun

-- status = 'processing' AND lease_expires_at <= NOW()
abbrev pub is_expired : Time → ScanJob → Bool
is_expired now j = is_processing j.status && at_most j.lease_expires_at now

-- The CTE `dead_lettered`.
abbrev pub is_spent : Time → ScanJob → Bool
is_spent now j = is_expired now j && leb j.max_attempts j.attempt_count

unfoldable pub spent_row : Time → ScanJob → ScanJob
spent_row now j = record j {
  status = ScanJobStatus.dead_letter;
  last_error = coalesce j.last_error (codes "scan job lease expired after max attempts");
  dead_lettered_at = some now;
  locked_at = none;
  locked_by = none;
  lease_expires_at = none;
  updated_at = now;
}

-- The CTE `due`: which rows, and which of two comes first.
abbrev pub is_due : Time → ScanJob → Bool
is_due now j =
    (is_waiting j.status && leb j.next_attempt_at now)
    || (is_expired now j && ltb j.attempt_count j.max_attempts)

abbrev pub rank : Time → ScanJob → ℕ
rank now j = if is_expired now j then 0 else 1

unfoldable pub precedes : Time → ScanJob → ScanJob → Bool
precedes now a b =
    ltb (rank now a) (rank now b)
    || ((rank now a == rank now b)
        && (ltb a.next_attempt_at b.next_attempt_at
            || (a.next_attempt_at == b.next_attempt_at && ltb a.created_at b.created_at)))

-- Of a row and the first of the rows after it, the first.
abbrev pub better : Time → ScanJob → Option ScanJob → Option ScanJob
better now j none = if is_due now j then some j else none
better now j (some k) = if is_due now j && precedes now j k then some j else some k

unfoldable pub first_due : Time → List ScanJob → Option ScanJob
first_due now [] = none
first_due now (j ∷ js) = better now j (first_due now js)

unfoldable pub claimed_row : Time → Text → ℕ → ScanJob → ScanJob
claimed_row now worker_id lease_ttl_seconds j = record j {
  status = ScanJobStatus.processing;
  attempt_count = j.attempt_count + 1;
  locked_at = some now;
  locked_by = some worker_id;
  lease_expires_at = some (now + seconds lease_ttl_seconds);
  updated_at = now;
}

-- What the statement makes of one row, when it takes the job `due`.
abbrev pub is_job : Option ScanJob → ScanJob → Bool
is_job none j = false
is_job (some due) j = j.id == due.id

unfoldable pub claim_row : Time → Text → ℕ → Option ScanJob → ScanJob → ScanJob
unfolding spent_row claimed_row
claim_row now worker_id lease_ttl_seconds due j =
    if is_spent now j
    then spent_row now j
    else if is_job due j
    then claimed_row now worker_id lease_ttl_seconds j
    else j

-- The CTEs `dead_lettered_runs` and `reclaimed_runs`.
abbrev is_run_of : ScanJob → ScanRun → Bool
is_run_of j r = elim j.last_scan_run_id [ none ↦ false | some id ↦ id == r.id ]

abbrev is_running : ScanRunStatus → Bool
is_running ScanRunStatus.running = true
is_running _ = false

unfoldable pub any_spent_of : Time → ScanRun → List ScanJob → Bool
any_spent_of now r [] = false
any_spent_of now r (j ∷ js) = (is_spent now j && is_run_of j r) || any_spent_of now r js

abbrev pub is_taken : Option ScanJob → Bool
is_taken none = false
is_taken (some j) = true

module _ (pg : Postgres) where
  unfoldable pub closed_run : Time → Text → ScanRun → ScanRun
  closed_run now message r = record r {
    status = ScanRunStatus.failed;
    finished_at = some now;
    duration_ms = some (pg.duration_ms r.started_at now);
    error_message = coalesce r.error_message message;
    metadata = pg.jsonb_concat r.metadata (
        object (
          field (codes "outcome") (string (codes "failed"))
            (field (codes "scan_job_reclaimed") (bool true) end)));
    updated_at = now;
  }

  unfoldable pub close_run : Time → List ScanJob → Option ScanJob → ScanRun → ScanRun
  unfolding closed_run any_spent_of
  close_run now jobs due r =
      if is_running r.status
      then (if any_spent_of now r jobs
          then closed_run now (codes "scan job lease expired after max attempts") r
          else if is_run_of_due due
          then closed_run now (codes "scan job lease expired before retry") r
          else r)
      else r
    where
      is_run_of_due : Option ScanJob → Bool
      is_run_of_due none = false
      is_run_of_due (some j) = is_run_of j r

  unfoldable pub claim_due_scan_job :
      Time → Text → ℕ → ScanTables → AppResult (Option ScanJob) × ScanTables
  unfolding claim_row close_run first_due claimed_row lease_failure
  claim_due_scan_job now worker_id lease_ttl_seconds db =
      let due = first_due now db.jobs in
      let jobs = map (claim_row now worker_id lease_ttl_seconds due) db.jobs in
      let runs = map (close_run now db.jobs due) db.runs in
      unless (lease_failure pg now lease_ttl_seconds (is_taken due))
        (
          Option.map (claimed_row now worker_id lease_ttl_seconds) due,
          record db { jobs = jobs; runs = runs },
        )
        db
