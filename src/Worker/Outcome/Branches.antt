-- ===== src/Worker/Outcome/Branches.antt =====
-- How a scan ends: all of the writes of the transaction, or none of them.
use coin_listener.Prelude.{
  ℕ, ◌≡◌, ◌<◌, refl, true, false, List, Option, none, some, arith, leb, ◌==◌, Bool-cases, inl, inr,
  IsIn, sym, ap, ◌∙◌,
}
use coin_listener.Prelude.Text.{Text}
use coin_listener.Core.Error.{AppError, AppResult, ok, err, err-ne-ok}
use coin_listener.Core.Clock.{Time}
use coin_listener.Core.Models.{Uuid, ScanJob, ScanRun}
use coin_listener.Storage.Postgres.{Postgres}
use coin_listener.Storage.Sql.{update_where, rows_affected, IsIn-updated, update_where-eq_self}
use coin_listener.Storage.Sql.Count.{rows_affected-IsIn}
use coin_listener.Prelude.Tests.{lt→ltb, ==_iff}
use coin_listener.Storage.ScanJobs
use coin_listener.Storage.ScanJobs.Claim.{ScanTables}
use coin_listener.Storage.ScanRuns
use coin_listener.Worker.Outcome
use coin_listener.Worker.Outcome.{ScanTaskOutcome}
use coin_listener.Worker.Outcome.Finished.{
  job_after, run_after, IsReleased, IsJobAfter, IsRunAfter, job_after-IsReleased,
  job_after-IsJobAfter, run_after-IsRunAfter, run_after-id, run_after-finished,
}

finish_job-eq :
    (now : Time) (id : Uuid) (w : Text) (attempts max_attempts : ℕ) (run : Option Uuid)
    (result : AppResult ScanTaskOutcome) (at : Time) (jobs : List ScanJob)
    → Outcome.finish_scan_job_for_result now id w attempts max_attempts run result at jobs
      ≡ ScanJobs.finish_where now id w (job_after now attempts max_attempts run result at) jobs
unfolding Outcome.finish_scan_job_for_result ScanJobs.mark_scan_job_succeeded
    ScanJobs.mark_scan_job_dead_letter ScanJobs.mark_scan_job_retryable
    ScanJobs.scan_job_should_dead_letter
finish_job-eq now id w attempts max_attempts run (ok o) at jobs = refl
finish_job-eq now id w attempts max_attempts run (err e) at jobs =
    elim (Bool-cases (leb max_attempts attempts)) [
      | inl spent ↦ rw spent refl
      | inr left ↦ rw left refl
    ]

module _ (pg : Postgres) (now at : Time) where
  finish_run-updates :
      (run : Uuid) (result : AppResult ScanTaskOutcome) (db : ScanTables)
      → 0 < rows_affected (λ (r : ScanRun). r.id == run) db.runs
      → Outcome.finish_scan_run_for_result_with_executor pg now run result at db ≡ (
        ok tt,
        record db {
          runs = update_where (λ (r : ScanRun). r.id == run) (run_after pg now at result) db.runs;
        },
      )
  unfolding Outcome.finish_scan_run_for_result_with_executor ScanRuns.finish_scan_run_with_executor
  finish_run-updates run (ok o) db p = rw (lt→ltb _ _ p) refl
  finish_run-updates run (err e) db p = rw (lt→ltb _ _ p) refl

ensure-ok : (n : ℕ) → 0 < n → ScanJobs.ensure_scan_job_updated n ≡ ok tt
unfolding ScanJobs.ensure_scan_job_updated
ensure-ok n p = rw (eqb_of_pos p) refl
  where
    eqb_of_pos : {n : ℕ} → 0 < n → (n == 0) ≡ false
    eqb_of_pos p = ground arith

ensure-err : (n : ℕ) (e : AppError) → ScanJobs.ensure_scan_job_updated n ≡ err e → n ≡ 0
unfolding ScanJobs.ensure_scan_job_updated
ensure-err n e h = elim (Bool-cases (n == 0)) [
  | inl none' ↦ ground arith
  | inr some' ↦ absurd (ok-ne-err (rw some' at h))
]
  where
    ok-ne-err : {u : Unit {0}} → ok u ≡ err e → ⊥
    ok-ne-err q = cc

module _ (now : Time) (id : Uuid) (w : Text) (set : ScanJob → ScanJob) (jobs : List ScanJob) where
  finish_where-fails :
      (e : AppError)
      → (ScanJobs.finish_where now id w set jobs).0 ≡ err e
      → (ScanJobs.finish_where now id w set jobs).1 ≡ jobs
  unfolding ScanJobs.finish_where
  finish_where-fails e h =
      update_where-eq_self (ScanJobs.is_held_by now id w) set jobs (ensure-err _ e h)

  finish_where-updates :
      (j : ScanJob)
      → IsIn j jobs
      → ScanJobs.is_held_by now id w j ≡ true
      → ScanJobs.finish_where now id w set jobs
        ≡ (ok tt, update_where (ScanJobs.is_held_by now id w) set jobs)
  unfolding ScanJobs.finish_where
  finish_where-updates j m h =
      rw (ensure-ok _ (rows_affected-IsIn (ScanJobs.is_held_by now id w) m h)) refl

module _ (pg : Postgres) (now : Time) (id : Uuid) (w : Text) (attempts max_attempts : ℕ)
    (result : AppResult ScanTaskOutcome) (at : Time) (db : ScanTables) where
  committed_or_not :
      (e : AppError) (r : AppResult (Unit {0})) (after : ScanTables)
      → (Outcome.commit db r after).0 ≡ err e
      → (Outcome.commit db r after).1 ≡ db
  committed_or_not e (ok u) after h = absurd (err-ne-ok (sym h))
  committed_or_not e (err e') after h = refl

  -- If finishing a job and its run ends in an error (the job's lease is lost, or the run is not
  -- there), both tables are as they were.
  pub finish_scan_job_and_run-rolls_back :
      (run : Option Uuid) (e : AppError)
      → let out =
          Outcome.finish_scan_job_and_run_for_result pg now id w attempts max_attempts run result at
            db in
        out.0 ≡ err e → out.1 ≡ db
  unfolding Outcome.finish_scan_job_and_run_for_result
  finish_scan_job_and_run-rolls_back none e h =
      ap (λ x. record db { jobs = x })
        (rw (finish_job-eq now id w attempts max_attempts none result at db.jobs) (
          finish_where-fails now id w (job_after now attempts max_attempts none result at) db.jobs e
            (rw (finish_job-eq now id w attempts max_attempts none result at db.jobs) at h)))
  finish_scan_job_and_run-rolls_back (some run) e h = committed_or_not e _ _ h

  -- If the worker still holds the job and the run is there, finishing them succeeds. Afterwards the
  -- table has the job without its lease: succeeded after a scan; after a failure with no attempts
  -- left dead-lettered, and after any other failure retryable at 30 seconds, 1, 5, 15 or 60 minutes
  -- from `at` by the count of its attempts, with the failure's text. And it has the run, finished at
  -- `at`: a success with the count of events of a scan, up to the greatest i32, or locked,
  -- unsupported, or failed with the failure's text, with no events.
  pub finish_scan_job_and_run-finishes :
      (run : Uuid) (j : ScanJob) (r : ScanRun)
      → IsIn j db.jobs
      → ScanJobs.is_held_by now id w j ≡ true
      → IsIn r db.runs
      → r.id ≡ run
      → let out =
          Outcome.finish_scan_job_and_run_for_result pg now id w attempts max_attempts
            (some run)
            result
            at
            db in
        (out.0 ≡ ok tt)
        × ((k : ScanJob) × IsIn k out.1.jobs
            × IsReleased run j k
            × IsJobAfter now attempts max_attempts result at k)
        × ((q : ScanRun) × IsIn q out.1.runs
            × (q.id ≡ run)
            × (q.finished_at ≡ some at)
            × IsRunAfter result q)
  unfolding Outcome.finish_scan_job_and_run_for_result
  finish_scan_job_and_run-finishes run j r m h n e =
      let job = job_after now attempts max_attempts (some run) result at in
      let found = rows_affected-IsIn (λ (q : ScanRun). q.id == run) n (==_of e) in
      let jobs = update_where (ScanJobs.is_held_by now id w) job db.jobs in
      rw
        (
          finish_job-eq now id w attempts max_attempts (some run) result at db.jobs,
          finish_where-updates now id w job db.jobs j m h,
          finish_run-updates pg now at run result (record db { jobs = jobs }) found,
        )
        (
          refl,
          (
            job j,
            IsIn-updated (ScanJobs.is_held_by now id w) job m h,
            job_after-IsReleased now attempts max_attempts run at j result,
            job_after-IsJobAfter now attempts max_attempts run at j result,
          ),
          (
            run_after pg now at result r,
            IsIn-updated (λ (q : ScanRun). q.id == run) (run_after pg now at result) n (==_of e),
            run_after-id pg now at result r ∙ e,
            run_after-finished pg now at result r,
            run_after-IsRunAfter pg now at result r,
          ),
        )
    where
      ==_of : {a b : ℕ} → a ≡ b → (a == b) ≡ true
      ==_of {a} {b} q = (==_iff a b).1 q
