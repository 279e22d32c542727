-- ===== src/Worker/Queue/Order.antt =====
-- The queue stays in order, whatever its callers do.
use coin_listener.Prelude.Json.{Json}
use coin_listener.Storage.Sql.{rows_affected}
use coin_listener.Prelude.{
  ℕ, ◌<◌, ◌≡◌, refl, true, false, List, Option, none, some, arith, ltb, Bool-cases, inl, inr, ◌⊎◌,
  ◌∙◌, IsIn,
}
use coin_listener.Prelude.Text.{Text}
use coin_listener.Core.Error.{AppResult, ok, err}
use coin_listener.Core.Clock.{Time}
use coin_listener.Core.Models.{Uuid, ScanJob, ScanAddressTask, ScanAddressContext}
use coin_listener.Storage.Postgres.{Postgres}
use coin_listener.Storage.ScanJobs
use coin_listener.Storage.ScanJobs.Claim
use coin_listener.Storage.ScanJobs.Claim.{ScanTables}
use coin_listener.Storage.ScanJobs.Invariant.{IsTable, IsJob, claim-IsTable}
use coin_listener.Storage.ScanJobs.Updates.{
  insert_scheduled-IsTable, insert_retry-IsTable, renew-IsTable, mark_succeeded-IsTable,
  mark_dead_letter-IsTable, mark_retryable-IsTable, held-IsTable, unless_cases,
}
use coin_listener.Storage.ScanRuns
use coin_listener.Worker.Outcome
use coin_listener.Worker.Outcome.{ScanTaskOutcome}
use coin_listener.Worker.Queue.{
  Op, schedule, retry, claim, renew, start_run, finish, run_op, IsAdmissible, Reach, here, step,
  empty_tables,
}

attempts_left :
    (attempts max_attempts : ℕ)
    → ScanJobs.scan_job_should_dead_letter attempts max_attempts ≡ false
    → attempts < max_attempts
unfolding ScanJobs.scan_job_should_dead_letter
attempts_left attempts max_attempts h = ground arith

module _ (pg : Postgres) (limit : ℕ) where
  claim_due-IsTable :
      (now : Time) (w : Text) (ttl : ℕ) (db : ScanTables)
      → IsTable limit db.jobs
      → IsTable limit (Claim.claim_due_scan_job pg now w ttl db).1.jobs
  claim_due-IsTable now w ttl db h =
      unfold Claim.claim_due_scan_job in
      unless_cases (λ (s : ScanTables). IsTable limit s.jobs) _ _ h
        (claim-IsTable limit now w ttl db.jobs h)

  job_finish-IsTable :
      (now : Time) (id : Uuid) (w : Text) (attempts max_attempts : ℕ) (run : Option Uuid)
      (result : AppResult ScanTaskOutcome) (t : Time) (jobs : List ScanJob)
      → max_attempts ≡ limit
      → ((j : ScanJob)
          → IsIn j jobs
          → ScanJobs.is_held_by now id w j ≡ true
          → j.attempt_count ≡ attempts)
      → IsTable limit jobs
      → IsTable limit
          (Outcome.finish_scan_job_for_result now id w attempts max_attempts run result t jobs).1
  unfolding Outcome.finish_scan_job_for_result
  job_finish-IsTable now id w attempts max_attempts run (ok outcome) t jobs same counts h =
      mark_succeeded-IsTable limit now id w run jobs h
  job_finish-IsTable now id w attempts max_attempts run (err e) t jobs same counts h =
      elim (Bool-cases (ScanJobs.scan_job_should_dead_letter attempts max_attempts)) [
        | inl spent ↦ rw spent (mark_dead_letter-IsTable limit now id w _ run jobs h)
        | inr left ↦ rw left (
            mark_retryable-IsTable limit now id w _ _ run jobs
              (λ j n g. omega (arith, same, counts j n g, attempts_left attempts max_attempts left))
              h)
      ]

  commit_jobs :
      (before after : ScanTables) (r : AppResult (Unit {0}))
      → ((Outcome.commit before r after).1.jobs ≡ before.jobs)
        ⊎ ((Outcome.commit before r after).1.jobs ≡ after.jobs)
  commit_jobs before after (ok u) = inr refl
  commit_jobs before after (err e) = inl refl

  transaction_jobs :
      (before mid : ScanTables) (r : AppResult (Unit {0}))
      (next : ScanTables → AppResult (Unit {0}) × ScanTables)
      → (next mid).1.jobs ≡ mid.jobs
      → let out = Outcome.then_run (r, mid) next in
        ((Outcome.commit before out.0 out.1).1.jobs ≡ before.jobs)
        ⊎ ((Outcome.commit before out.0 out.1).1.jobs ≡ mid.jobs)
  unfolding Outcome.then_run
  transaction_jobs before mid (ok u) next keeps =
      elim (commit_jobs before (next mid).1 (next mid).0) [
        | inl old ↦ inl old
        | inr new ↦ inr (new ∙ keeps)
      ]
  transaction_jobs before mid (err e) next keeps = inl refl

  finish_run-jobs :
      (now : Time) (run : Uuid) (result : AppResult ScanTaskOutcome) (t : Time) (db : ScanTables)
      → (Outcome.finish_scan_run_for_result_with_executor pg now run result t db).1.jobs ≡ db.jobs
  unfolding Outcome.finish_scan_run_for_result_with_executor
  finish_run-jobs now run (ok outcome) t db = refl
  finish_run-jobs now run (err e) t db = refl

  -- What finishing the job and its run leaves: the job's new table, or the old one.
  pub finish-jobs :
      (now : Time) (id : Uuid) (w : Text) (attempts max_attempts : ℕ) (run : Option Uuid)
      (result : AppResult ScanTaskOutcome) (t : Time) (db : ScanTables)
      → let jobs =
          (Outcome.finish_scan_job_and_run_for_result pg now id w attempts max_attempts run result t
            db).1.jobs in
        (jobs ≡ db.jobs)
        ⊎ (jobs
            ≡ (Outcome.finish_scan_job_for_result now id w attempts max_attempts run result t
                db.jobs).1)
  unfolding Outcome.finish_scan_job_and_run_for_result
  finish-jobs now id w attempts max_attempts none result t db = inr refl
  finish-jobs now id w attempts max_attempts (some run) result t db =
      let (r, jobs) =
        Outcome.finish_scan_job_for_result now id w attempts max_attempts (some run) result t
          db.jobs in
      transaction_jobs db (record db { jobs = jobs }) r
        (Outcome.finish_scan_run_for_result_with_executor pg now run result t)
        (finish_run-jobs now run result t (record db { jobs = jobs }))

  start_run-IsTable :
      (now : Time) (id : Uuid) (task : ScanAddressTask) (context : ScanAddressContext) (w : Text)
      (t : Time) (metadata : Json) (db : ScanTables)
      → IsTable limit db.jobs
      → IsTable limit (ScanRuns.create_scan_run id now task context w t metadata db).1.jobs
  start_run-IsTable now id task context w t metadata db h =
      unfold ScanRuns.create_scan_run in
      elim (Bool-cases (ltb 0 (rows_affected (ScanJobs.is_held_by now task.task_id w) db.jobs))) [
        | inl held ↦ rw held (
            held-IsTable limit now task.task_id w (ScanRuns.linked id now) db.jobs
              (λ j n r g. linked-IsJob j r) (λ j. refl) (λ j. refl) h)
        | inr lost ↦ rw lost h
      ]
    where
      linked-IsJob : (j : ScanJob) → IsJob limit j → IsJob limit (ScanRuns.linked id now j)
      linked-IsJob j r = unfold ScanRuns.linked in ground arith

  pub run_op-IsTable :
      (now : Time) (op : Op) (db : ScanTables)
      → 0 < limit
      → IsAdmissible limit now op db
      → IsTable limit db.jobs
      → IsTable limit (run_op pg limit now op db).jobs
  unfolding run_op
  run_op-IsTable now (schedule id c t) db p a h =
      insert_scheduled-IsTable limit id now c t db.jobs p a h
  run_op-IsTable now (retry id tenant address chain run t) db p a h =
      insert_retry-IsTable limit id now tenant address chain run t db.jobs p a h
  run_op-IsTable now (claim w ttl) db p a h = claim_due-IsTable now w ttl db h
  run_op-IsTable now (renew id w ttl) db p a h = renew-IsTable limit pg now id w ttl db.jobs h
  run_op-IsTable now (start_run id task context w t metadata) db p a h =
      start_run-IsTable now id task context w t metadata db h
  run_op-IsTable now (finish id w attempts max_attempts run result t) db p a h =
      elim (finish-jobs now id w attempts max_attempts run result t db) [
        | inl same ↦ rw same h
        | inr next ↦
            rw next
              (job_finish-IsTable now id w attempts max_attempts run result t db.jobs a.0 a.1 h)
      ]

  -- From empty tables, with a positive attempt limit, every sequence of inserts, retries, claims,
  -- renewals, run starts and finishes by any workers at any times, in which generated ids are fresh
  -- and a worker finishes the job that it holds with its attempt count and the limit, leads to a
  -- table where ids are unique, every address has at most one active job, a job has an owner and a lease exactly while
  -- it is processing, no job was attempted more than `limit` times, and one that waits has attempts
  -- left.
  pub Reach-IsTable :
      {P : Time → Op → Type 0} {db : ScanTables}
      → 0 < limit
      → Reach pg limit P empty_tables db
      → IsTable limit db.jobs
  Reach-IsTable p here = record {
    rows = tt;
    ids = λ i. unfold rows_affected in omega arith;
    active = λ a. unfold rows_affected in omega arith;
  }
  Reach-IsTable p (step {db = db} now op r q a) = run_op-IsTable now op db p a (Reach-IsTable p r)
