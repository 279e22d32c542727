-- ===== src/Storage/ScanJobs/Updates.antt =====
-- The statements other than the claim keep the table of scan jobs in order.
use coin_listener.Storage.ScanJobs.{i64_max}
use coin_listener.Prelude.{
  ℕ, ◌<◌, ◌≡◌, refl, Bool, true, false, List, [], ◌∷◌, ◌++◌, Option, none, some, arith, ◌==◌, any,
  Bool-cases, inl, inr, IsIn,
}
use native.Mathlib.Nat.{le_trans}
use coin_listener.Prelude.Text.{Text}
use coin_listener.Core.Error.{AppError}
use coin_listener.Storage.Postgres.{Postgres}
use coin_listener.Core.Clock.{Time}
use coin_listener.Core.Models.{Uuid, ScanJob, ScanAddressCandidate}
use coin_listener.Storage.Sql.{update_where, rows_affected, All-update_where_of_IsIn, All-append}
use coin_listener.Storage.Sql.Count.{
  rows_affected-update_where_le, rows_affected-any, rows_affected-append_le_one,
}
use coin_listener.Storage.ScanJobs
use coin_listener.Storage.ScanJobs.Invariant.{IsJob, IsTable, has_id, finished-IsJob}

-- What holds before a statement and after it holds whether or not it fails.
pub unless_cases :
    {A S : Type 0} (P : S → Type 0) {before : S} (failure : Option AppError) (done : A × S)
    → P before
    → P done.1
    → P (ScanJobs.unless failure done before).1
unless_cases P none done b a = a
unless_cases P (some e) done b a = b

module _ (limit : ℕ) where
  -- An UPDATE that keeps ids and what a row keeps, and makes no row active for another address.
  update-IsTable :
      (test : ScanJob → Bool) (set : ScanJob → ScanJob) (jobs : List ScanJob)
      → ((j : ScanJob) → IsIn j jobs → IsJob limit j → test j ≡ true → IsJob limit (set j))
      → ((j : ScanJob) → (set j).id ≡ j.id)
      → ((a : Uuid) (j : ScanJob)
          → test j ≡ true
          → ScanJobs.is_active_for a (set j) ≡ true
          → ScanJobs.is_active_for a j ≡ true)
      → IsTable limit jobs
      → IsTable limit (update_where test set jobs)
  update-IsTable test set jobs row id active h = record {
    rows = All-update_where_of_IsIn (IsJob limit) test set jobs row h.rows;
    ids = λ i.
        le_trans (rows_affected-update_where_le (has_id i) test set jobs (λ j g t. rw (id j) at t))
          (h.ids i);
    active = λ a.
        le_trans
          (rows_affected-update_where_le (ScanJobs.is_active_for a) test set jobs
            (λ j g t. active a j g t))
          (h.active a);
  }

  -- A new row with an id that no row has, for an address with no active job.
  insert-IsTable :
      (job : ScanJob) (jobs : List ScanJob)
      → IsJob limit job
      → rows_affected (has_id job.id) jobs ≡ 0
      → any (ScanJobs.is_active_for job.address_id) jobs ≡ false
      → IsTable limit jobs
      → IsTable limit (jobs ++ job ∷ [])
  insert-IsTable job jobs row fresh free h = record {
    rows = All-append (IsJob limit) jobs (job ∷ []) h.rows (row, tt);
    ids = λ i. rows_affected-append_le_one (has_id i) jobs job (h.ids i) (λ t. same_id i t);
    active = λ a.
        rows_affected-append_le_one (ScanJobs.is_active_for a) jobs job (h.active a)
          (λ t. same_address a t);
  }
    where
      same_id : (i : Uuid) → has_id i job ≡ true → rows_affected (has_id i) jobs ≡ 0
      same_id i t = let e : job.id ≡ i = ground arith in rw (← e) fresh

      same_address :
          (a : Uuid)
          → ScanJobs.is_active_for a job ≡ true
          → rows_affected (ScanJobs.is_active_for a) jobs ≡ 0
      same_address a t =
          let e : job.address_id ≡ a = ground arith in
          rw (← e) (rows_affected-any (ScanJobs.is_active_for job.address_id) jobs free)

  new_scan_job-IsJob :
      (id : Uuid) (now : Time) (tenant address chain : Uuid) (t : Time) (retry_of : Option Uuid)
      → 0 < limit
      → IsJob limit (ScanJobs.new_scan_job id now tenant address chain limit t retry_of)
  unfolding ScanJobs.new_scan_job
  new_scan_job-IsJob id now tenant address chain t retry_of p = ground arith

  pub insert_scheduled-IsTable :
      (id : Uuid) (now : Time) (c : ScanAddressCandidate) (t : Time) (jobs : List ScanJob)
      → 0 < limit
      → rows_affected (has_id id) jobs ≡ 0
      → IsTable limit jobs
      → IsTable limit (ScanJobs.insert_scheduled_scan_job_in_transaction id now c limit t jobs).1
  insert_scheduled-IsTable id now c t jobs p fresh h =
      let row = new_scan_job-IsJob id now c.tenant_id c.id c.chain_id t none p in
      unfold ScanJobs.insert_scheduled_scan_job_in_transaction in
      elim (Bool-cases (any (ScanJobs.is_active_for c.id) jobs)) [
        | inl taken ↦ rw taken h
        | inr free ↦ rw free (insert-IsTable _ jobs row fresh free h)
      ]

  reset_for_retry-IsJob :
      (now t : Time) (run : Uuid) (j : ScanJob)
      → IsJob limit j
      → ScanJobs.is_waiting j.status ≡ true
      → IsJob limit (ScanJobs.reset_for_retry now limit t run j)
  unfolding ScanJobs.reset_for_retry
  reset_for_retry-IsJob now t run j h w = ground arith

  pub insert_retry-IsTable :
      (id : Uuid) (now : Time) (tenant address chain run : Uuid) (t : Time) (jobs : List ScanJob)
      → 0 < limit
      → rows_affected (has_id id) jobs ≡ 0
      → IsTable limit jobs
      → IsTable limit
          (ScanJobs.insert_retry_scan_job id now tenant address chain run limit t jobs).1
  insert_retry-IsTable id now tenant address chain run t jobs p fresh h =
      let row = new_scan_job-IsJob id now tenant address chain t (some run) p in
      unfold ScanJobs.insert_retry_scan_job in
      elim (Bool-cases (any (ScanJobs.is_active_for address) jobs)) [
        | inl taken ↦ rw taken (
            update-IsTable (ScanJobs.is_waiting_for address)
              (ScanJobs.reset_for_retry now limit t run) jobs
              (λ j n r g. reset_for_retry-IsJob now t run j r (ground arith)) (λ j. refl)
              (λ a j g u. ground arith) h)
        | inr free ↦ rw free (insert-IsTable _ jobs row fresh free h)
      ]

  -- A statement of the lease's holder that keeps each row it takes.
  pub held-IsTable :
      (now : Time) (id : Uuid) (w : Text) (set : ScanJob → ScanJob) (jobs : List ScanJob)
      → ((j : ScanJob)
          → IsIn j jobs
          → IsJob limit j
          → ScanJobs.is_held_by now id w j ≡ true
          → IsJob limit (set j))
      → ((j : ScanJob) → (set j).id ≡ j.id)
      → ((j : ScanJob) → (set j).address_id ≡ j.address_id)
      → IsTable limit jobs
      → IsTable limit (update_where (ScanJobs.is_held_by now id w) set jobs)
  held-IsTable now id w set jobs row same_id same_address =
      update-IsTable (ScanJobs.is_held_by now id w) set jobs row same_id
        λ a j g t. held_active a j g (rw (same_address j) at (address_of a (set j) t))
    where
      address_of :
          (a : Uuid) (j : ScanJob) → ScanJobs.is_active_for a j ≡ true → (j.address_id == a) ≡ true
      address_of a j t = ground arith

      held_active :
          (a : Uuid) (j : ScanJob)
          → ScanJobs.is_held_by now id w j ≡ true
          → (j.address_id == a) ≡ true
          → ScanJobs.is_active_for a j ≡ true
      held_active a j g t = unfold ScanJobs.is_held_by in ground arith

  pub renew-IsTable :
      (pg : Postgres) (now : Time) (id : Uuid) (w : Text) (ttl : ℕ) (jobs : List ScanJob)
      → IsTable limit jobs
      → IsTable limit (ScanJobs.renew_scan_job_lease pg now id w ttl jobs).1
  renew-IsTable pg now id w ttl jobs h =
      unfold ScanJobs.renew_scan_job_lease in
      unless_cases (IsTable limit) _ _ h (
        held-IsTable now id w (ScanJobs.renewed now ttl) jobs (λ j n r g. renewed-IsJob j r g)
          (λ j. refl) (λ j. refl) h)
    where
      renewed-IsJob :
          (j : ScanJob)
          → IsJob limit j
          → ScanJobs.is_held_by now id w j ≡ true
          → IsJob limit (ScanJobs.renewed now ttl j)
      renewed-IsJob j r g = unfold ScanJobs.renewed ScanJobs.is_held_by in ground arith

  pub mark_succeeded-IsTable :
      (now : Time) (id : Uuid) (w : Text) (run : Option Uuid) (jobs : List ScanJob)
      → IsTable limit jobs
      → IsTable limit (ScanJobs.mark_scan_job_succeeded now id w run jobs).1
  unfolding ScanJobs.mark_scan_job_succeeded ScanJobs.finish_where
  mark_succeeded-IsTable now id w run jobs =
      held-IsTable now id w (ScanJobs.succeeded_row now run) jobs
        (λ j n r g. (finished-IsJob limit now 0 [] run j r).0) (λ j. refl) (λ j. refl)

  pub mark_dead_letter-IsTable :
      (now : Time) (id : Uuid) (w e : Text) (run : Option Uuid) (jobs : List ScanJob)
      → IsTable limit jobs
      → IsTable limit (ScanJobs.mark_scan_job_dead_letter now id w e run jobs).1
  unfolding ScanJobs.mark_scan_job_dead_letter ScanJobs.finish_where
  mark_dead_letter-IsTable now id w e run jobs =
      held-IsTable now id w (ScanJobs.dead_letter_row now e run) jobs
        (λ j n r g. (finished-IsJob limit now 0 e run j r).1) (λ j. refl) (λ j. refl)

  -- A job may wait for another attempt only if it has attempts left.
  pub mark_retryable-IsTable :
      (now : Time) (id : Uuid) (w : Text) (t : Time) (e : Text) (run : Option Uuid)
      (jobs : List ScanJob)
      → ((j : ScanJob)
          → IsIn j jobs
          → ScanJobs.is_held_by now id w j ≡ true
          → j.attempt_count < limit)
      → IsTable limit jobs
      → IsTable limit (ScanJobs.mark_scan_job_retryable now id w t e run jobs).1
  unfolding ScanJobs.mark_scan_job_retryable ScanJobs.finish_where
  mark_retryable-IsTable now id w t e run jobs left =
      held-IsTable now id w (ScanJobs.retryable_row now t e run) jobs
        (λ j n r g. (finished-IsJob limit now t e run j r).2 (left j n g)) (λ j. refl) (λ j. refl)
