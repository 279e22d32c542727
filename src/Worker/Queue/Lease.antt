-- ===== src/Worker/Queue/Lease.antt =====
-- A lease excludes: while it lasts, nobody but its holder changes the job.
use coin_listener.Prelude.{
  ℕ, ◌<◌, ◌≤◌, ◌≡◌, ◌≢◌, refl, false, List, map, Option, some, arith, ltb, Bool-cases, inl, inr,
  IsIn, any,
}
use coin_listener.Prelude.Text.{Text, text_eq_iff}
use coin_listener.Core.Error.{AppResult, ok, err}
use coin_listener.Core.Clock.{Time}
use coin_listener.Core.Models.{Uuid, ScanJob, ScanJobStatus, ScanAddressCandidate}
use coin_listener.Storage.Postgres.{Postgres}
use coin_listener.Storage.Sql.{
  update_where, rows_affected, IsIn-update_where, IsIn-map, IsIn-append,
}
use coin_listener.Storage.ScanJobs
use coin_listener.Storage.ScanJobs.Claim
use coin_listener.Storage.ScanJobs.Claim.{ScanTables}
use coin_listener.Storage.ScanJobs.Invariant.{IsTable, taken-is_due, has_id}
use coin_listener.Storage.ScanJobs.Updates.{unless_cases}
use mathlib.Core.Bool.{false≢true}
use coin_listener.Storage.ScanRuns
use coin_listener.Worker.Outcome
use coin_listener.Worker.Outcome.{ScanTaskOutcome}
use coin_listener.Worker.Queue.{
  Op, schedule, retry, claim, renew, start_run, finish, run_op, Reach, here, step,
}
use coin_listener.Worker.Queue.Order.{run_op-IsTable, finish-jobs}

-- The worker that a statement names is another one.
abbrev pub IsByOther : Text → Op → Type 0
IsByOther w (claim v ttl) = v ≢ w
IsByOther w (renew id v ttl) = v ≢ w
IsByOther w (start_run id task context v t metadata) = v ≢ w
IsByOther w (finish id v attempts max_attempts run result t) = v ≢ w
IsByOther w _ = Unit

pub record IsLeased (w : Text) (expires : Time) (j : ScanJob) : Type 0 where
  pub status : j.status ≡ ScanJobStatus.processing
  pub owner : j.locked_by ≡ some w
  pub lease : j.lease_expires_at ≡ some expires

module _ (w : Text) (expires now : Time) (j : ScanJob) (l : IsLeased w expires j)
    (early : now < expires) where
  not_held : (id : Uuid) (v : Text) → v ≢ w → ScanJobs.is_held_by now id v j ≡ false
  unfolding ScanJobs.is_held_by
  not_held id v other = rw l.owner (ground (arith, text_eq_iff w v))

  not_waiting : (a : Uuid) → ScanJobs.is_waiting_for a j ≡ false
  not_waiting a = rw l.status (ground arith)

  not_expired : Claim.is_expired now j ≡ false
  not_expired = rw l.status (rw l.lease (ground arith))

  not_claimed : (Claim.is_spent now j ≡ false) × (Claim.is_due now j ≡ false)
  not_claimed = rw not_expired (rw l.status (refl, refl))

  module _ (jobs : List ScanJob) (m : IsIn j jobs) where
    held-keeps :
        (id : Uuid) (v : Text) (set : ScanJob → ScanJob)
        → v ≢ w
        → IsIn j (update_where (ScanJobs.is_held_by now id v) set jobs)
    held-keeps id v set other = IsIn-update_where _ set m (not_held id v other)

    schedule-keeps :
        (id : Uuid) (c : ScanAddressCandidate) (limit : ℕ) (t : Time)
        → IsIn j (ScanJobs.insert_scheduled_scan_job_in_transaction id now c limit t jobs).1
    schedule-keeps id c limit t =
        unfold ScanJobs.insert_scheduled_scan_job_in_transaction in
        elim (Bool-cases (any (ScanJobs.is_active_for c.id) jobs)) [
          | inl taken ↦ rw taken m
          | inr free ↦ rw free (IsIn-append _ m)
        ]

    retry-keeps :
        (id tenant address chain run : Uuid) (limit : ℕ) (t : Time)
        → IsIn j (ScanJobs.insert_retry_scan_job id now tenant address chain run limit t jobs).1
    retry-keeps id tenant address chain run limit t =
        unfold ScanJobs.insert_retry_scan_job in
        elim (Bool-cases (any (ScanJobs.is_active_for address) jobs)) [
          | inl taken ↦ rw taken (IsIn-update_where _ _ m (not_waiting address))
          | inr free ↦ rw free (IsIn-append _ m)
        ]

    renew-keeps :
        (pg : Postgres) (id : Uuid) (v : Text) (ttl : ℕ)
        → v ≢ w
        → IsIn j (ScanJobs.renew_scan_job_lease pg now id v ttl jobs).1
    renew-keeps pg id v ttl other =
        unfold ScanJobs.renew_scan_job_lease in
        unless_cases (IsIn j) _ _ m (held-keeps id v (ScanJobs.renewed now ttl) other)

    finish-keeps :
        (id : Uuid) (v : Text) (attempts max_attempts : ℕ) (run : Option Uuid)
        (result : AppResult ScanTaskOutcome) (t : Time)
        → v ≢ w
        → IsIn j
            (Outcome.finish_scan_job_for_result now id v attempts max_attempts run result t jobs).1
    unfolding Outcome.finish_scan_job_for_result ScanJobs.mark_scan_job_succeeded
        ScanJobs.mark_scan_job_dead_letter ScanJobs.mark_scan_job_retryable ScanJobs.finish_where
    finish-keeps id v attempts max_attempts run (ok outcome) t other = held-keeps id v _ other
    finish-keeps id v attempts max_attempts run (err e) t other =
        elim (Bool-cases (ScanJobs.scan_job_should_dead_letter attempts max_attempts)) [
          | inl spent ↦ rw spent (held-keeps id v _ other)
          | inr left ↦ rw left (held-keeps id v _ other)
        ]

    claim-keeps :
        (v : Text) (ttl : ℕ)
        → ((id : Uuid) → rows_affected (has_id id) jobs ≤ 1)
        → IsIn j (map (Claim.claim_row now v ttl (Claim.first_due now jobs)) jobs)
    claim-keeps v ttl ids =
        let due = Claim.first_due now jobs in
        elim (Bool-cases (Claim.is_job due j)) [
          | inl taken ↦
              absurd
                (false≢true (rw not_claimed.1 at (taken-is_due now jobs ids due refl j m taken)))
          | inr left ↦ IsIn-map _ m (unfold Claim.claim_row in rw (not_claimed.0, left) refl)
        ]

  module _ (pg : Postgres) (limit : ℕ) where
    run_op-keeps :
        (op : Op) (db : ScanTables)
        → IsByOther w op
        → IsTable limit db.jobs
        → IsIn j db.jobs
        → IsIn j (run_op pg limit now op db).jobs
    unfolding run_op
    run_op-keeps (schedule id c t) db other h m = schedule-keeps db.jobs m id c limit t
    run_op-keeps (retry id tenant address chain run t) db other h m =
        retry-keeps db.jobs m id tenant address chain run limit t
    run_op-keeps (claim v ttl) db other h m =
        unfold Claim.claim_due_scan_job in
        unless_cases (λ (s : ScanTables). IsIn j s.jobs) _ _ m (claim-keeps db.jobs m v ttl h.ids)
    run_op-keeps (renew id v ttl) db other h m = renew-keeps db.jobs m pg id v ttl other
    run_op-keeps (start_run id task context v t metadata) db other h m =
        unfold ScanRuns.create_scan_run in
        elim (Bool-cases (ltb 0 (rows_affected (ScanJobs.is_held_by now task.task_id v) db.jobs))) [
          | inl held ↦ rw (run_op, held) (held-keeps db.jobs m task.task_id v _ other)
          | inr lost ↦ rw (run_op, lost) m
        ]
    run_op-keeps (finish id v attempts max_attempts run result t) db other h m =
        elim (finish-jobs pg limit now id v attempts max_attempts run result t db) [
          | inl same ↦ rw same m
          | inr next ↦
              rw next (finish-keeps db.jobs m id v attempts max_attempts run result t other)
        ]

-- A statement that runs before `expires` and that another worker than `w` makes.
abbrev pub IsOutside : Text → Time → Time → Op → Type 0
IsOutside w expires now op = (now < expires) × IsByOther w op

module _ (pg : Postgres) (limit : ℕ) (positive : 0 < limit) (from : ScanTables)
    (ordered : IsTable limit from.jobs) (w : Text) (expires : Time) (j : ScanJob)
    (l : IsLeased w expires j) (m : IsIn j from.jobs) where
  leased_and_ordered :
      {db : ScanTables}
      → Reach pg limit (IsOutside w expires) from db
      → IsTable limit db.jobs × IsIn j db.jobs
  leased_and_ordered here = (ordered, m)
  leased_and_ordered (step {db = db} now op r q a) =
      let (h, n) = leased_and_ordered r in
      (
        run_op-IsTable pg limit now op db positive a h,
        run_op-keeps w expires now j l q.0 pg limit op db q.1 h n,
      )

  -- From tables that are in order for a positive attempt limit, where worker `w` holds a lease on
  -- job `j` until `expires`: after any sequence of statements that run before `expires`, by the
  -- scheduler, the retry route and workers other than `w`, in which generated ids are fresh and a
  -- worker finishes the job that it holds with its attempt count and the limit, the row of `j` is in
  -- the table unchanged.
  pub Reach-leased :
      {db : ScanTables} → Reach pg limit (IsOutside w expires) from db → IsIn j db.jobs
  Reach-leased r = (leased_and_ordered r).1
