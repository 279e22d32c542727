-- ===== src/Tests/Worker.antt =====
-- The scan queue, the ranges and the cursors at concrete inputs.
use coin_listener.Prelude.{
  ap, length, ◌≡◌, refl, true, List, [], ◌∷◌, Option, some, arith, IsIn, head, if◌then◌else◌, ◌≢◌,
  none, tail,
}
use coin_listener.Prelude.Int.{pos, ◌+ℤ◌, ◌-ℤ◌, ◌≤ℤ◌}
use coin_listener.Prelude.Text.{Text, codes}
use coin_listener.Core.Error.{AppResult, ok, err, database}
use coin_listener.Core.Clock.{Time}
use coin_listener.Core.Machine.{◌<ℤ◌, leb_ℤ, saturating_add, wrap_i64}
use mathlib.Core.Bool.{false≢true}
use coin_listener.Storage.Sql.{rows_affected}
use coin_listener.Storage.ScanJobs
use coin_listener.Storage.ScanJobs.Claim
use coin_listener.Storage.ScanJobs.Claim.{ScanTables}
use coin_listener.Storage.ScanJobs.Invariant.{IsTable}
use coin_listener.Worker.Cursors
use coin_listener.Worker.Cursors.Progress
use coin_listener.Worker.Outcome
use coin_listener.Worker.Outcome.{ScanTaskOutcome}
use coin_listener.Worker.Outcome.Branches
use coin_listener.Worker.Outcome.Finished.{IsReleased, IsJobAfter, IsRunAfter}
use coin_listener.Worker.Queue.{
  Op, schedule, claim, run_op, IsAdmissible, finish, Reach, here, step, empty_tables,
}
use coin_listener.Worker.Queue.Lease.{IsOutside, Reach-leased}
use coin_listener.Worker.Queue.Order.{Reach-IsTable}
use coin_listener.Worker.Ranges
use coin_listener.Worker.Ranges.Partition
use coin_listener.Worker.Paging
use coin_listener.Tests.Data
use coin_listener.Storage.ScanJobs.First
use coin_listener.Worker.Ranges.{BlockRange}
use coin_listener.Core.Models.{ScanJob, ScanJobStatus, ScanRun}
use coin_listener.Core.Error.{not_found}
use coin_listener.Prelude.Text.{text_eq_refl}
use coin_listener.Prelude.{◌&&◌, ◌≢◌}

-- A job is scheduled and claimed.
abbrev scheduled : ScanTables
scheduled = run_op Data.postgres 3 100 (schedule 1 Data.candidate 50) empty_tables

abbrev claimed : ScanTables
claimed = run_op Data.postgres 3 200 (claim Data.alice 60) scheduled

abbrev Anything : Time → Op → Type 0
Anything now op = Unit

scheduled_and_claimed : Reach Data.postgres 3 Anything empty_tables claimed
unfolding rows_affected
scheduled_and_claimed =
    step 200 (claim Data.alice 60) (step 100 (schedule 1 Data.candidate 50) here tt refl) tt tt

-- The one job of the table after the claim.
abbrev claimed_job : ScanJob
claimed_job = record (Data.job ScanJobStatus.processing 1 (some Data.alice) (some 60000200)) {
  locked_at = some 200;
  next_attempt_at = 50;
  created_at = 100;
  updated_at = 200;
}

claimed_jobs : claimed.jobs ≡ claimed_job ∷ []
unfolding rows_affected run_op Claim.claim_due_scan_job
    ScanJobs.insert_scheduled_scan_job_in_transaction
claimed_jobs = refl

only : {j k : ScanJob} → IsIn j (k ∷ []) → j ≡ k
only head = refl
only (tail m) = elim m [ ]

-- The scan fails, and `alice` finishes the job.
abbrev finishing : Op
finishing = finish 1 Data.alice 1 3 none (err (database (codes "timeout"))) 250

finishing-IsAdmissible : IsAdmissible 3 250 finishing claimed
finishing-IsAdmissible =
    (refl, λ j m h. ap (λ (q : ScanJob). q.attempt_count) (only (rw claimed_jobs at m)))

abbrev finished : ScanTables
finished = run_op Data.postgres 3 250 finishing claimed

scheduled_claimed_and_finished : Reach Data.postgres 3 Anything empty_tables finished
scheduled_claimed_and_finished = step 250 finishing scheduled_and_claimed tt finishing-IsAdmissible

Reach-IsTable_example : IsTable 3 finished.jobs
Reach-IsTable_example = Reach-IsTable Data.postgres 3 (omega arith) scheduled_claimed_and_finished

-- While `alice` holds the lease of one job, `bob` finishes another one, and tries to claim.
abbrev job_of_bob : ScanJob
job_of_bob = record (Data.job ScanJobStatus.processing 2 (some Data.bob) (some 900)) {
  id = 2;
  address_id = 8;
}

abbrev two_jobs : ScanTables
two_jobs = record { jobs = Data.leased ∷ job_of_bob ∷ []; runs = Data.run ∷ [] }

two_jobs-IsTable : IsTable 3 two_jobs.jobs
two_jobs-IsTable = record {
  rows = (
    record {
      locked = refl;
      leased = refl;
      limited = refl;
      attempts = omega arith;
      waits = λ h. omega arith;
      ran = λ h. omega arith;
    },
    (
      record {
        locked = refl;
        leased = refl;
        limited = refl;
        attempts = omega arith;
        waits = λ h. omega arith;
        ran = λ h. omega arith;
      },
      tt,
    ),
  );
  ids = λ i. unfold rows_affected in ground arith;
  active = λ a. unfold rows_affected in ground arith;
}

abbrev bob_finishing : Op
bob_finishing = finish 2 Data.bob 2 3 none (err (database (codes "timeout"))) 400

bob_finishing-IsAdmissible : IsAdmissible 3 400 bob_finishing two_jobs
unfolding ScanJobs.is_held_by
bob_finishing-IsAdmissible = (refl, of_bob)
  where
    of_bob :
        (j : ScanJob)
        → IsIn j two_jobs.jobs
        → ScanJobs.is_held_by 400 2 Data.bob j ≡ true
        → j.attempt_count ≡ 2
    of_bob j head h = absurd (false≢true h)
    of_bob j (tail head) h = refl
    of_bob j (tail (tail m)) h = elim m [ ]

abbrev intruded : ScanTables
intruded =
    run_op Data.postgres 3 500 (claim Data.bob 60)
      (run_op Data.postgres 3 400 bob_finishing two_jobs)

not_alice : Data.bob ≢ Data.alice
not_alice e = omega (arith, ap (λ (s : Text). length s) e)

abbrev intrusion : Reach Data.postgres 3 (IsOutside Data.alice 1000) two_jobs intruded
intrusion =
    step 500 (claim Data.bob 60)
      (step 400 bob_finishing here (omega arith, not_alice) bob_finishing-IsAdmissible)
      (omega arith, not_alice) tt

Reach-leased_example : IsIn Data.leased intruded.jobs
Reach-leased_example =
    Reach-leased Data.postgres 3 (omega arith) two_jobs two_jobs-IsTable Data.alice 1000 Data.leased
      (record { status = refl; owner = refl; lease = refl }) head intrusion

-- `alice` finishes the job that she holds, after a failure.
abbrev failure : AppResult ScanTaskOutcome
failure = err (database (codes "timeout"))

abbrev after_failure : AppResult (Unit {0}) × ScanTables
after_failure =
    Outcome.finish_scan_job_and_run_for_result Data.postgres 500 1 Data.alice 1 3 (some 5) failure
      500 (Data.tables Data.leased)

held : ScanJobs.is_held_by 500 1 Data.alice Data.leased ≡ true
unfolding ScanJobs.is_held_by
held = rw (text_eq_refl Data.alice) refl

finish_scan_job_and_run-finishes_example :
    (after_failure.0 ≡ ok tt)
    × ((k : ScanJob) × IsIn k after_failure.1.jobs
        × IsReleased 5 Data.leased k
        × IsJobAfter 500 1 3 failure 500 k)
    × ((q : ScanRun) × IsIn q after_failure.1.runs
        × (q.id ≡ 5)
        × (q.finished_at ≡ some 500)
        × IsRunAfter failure q)
finish_scan_job_and_run-finishes_example =
    Branches.finish_scan_job_and_run-finishes Data.postgres 500 1 Data.alice 1 3 failure 500
      (Data.tables Data.leased) 5 Data.leased Data.run head held head refl

-- A job that `alice` does not hold: nothing changes.
abbrev lost : AppResult (Unit {0}) × ScanTables
lost =
    Outcome.finish_scan_job_and_run_for_result Data.postgres 500 1 Data.alice 1 3 (some 6) failure
      500 (Data.tables Data.waiting)

lost_error : lost.0 ≡ err (not_found (codes "scan job"))
unfolding Outcome.finish_scan_job_and_run_for_result Outcome.finish_scan_job_for_result
    ScanJobs.mark_scan_job_retryable ScanJobs.finish_where ScanJobs.is_held_by rows_affected
    ScanJobs.ensure_scan_job_updated ScanJobs.scan_job_should_dead_letter
lost_error = refl

finish_scan_job_and_run-rolls_back_example : lost.1 ≡ Data.tables Data.waiting
finish_scan_job_and_run-rolls_back_example =
    Branches.finish_scan_job_and_run-rolls_back Data.postgres 500 1 Data.alice 1 3 failure 500
      (Data.tables Data.waiting) (some 6) (not_found (codes "scan job")) lost_error

claim_due_scan_job-IsAnswer_example :
    let out = Claim.claim_due_scan_job Data.postgres 200 Data.bob 60 (Data.tables Data.waiting) in
    (o : Option ScanJob) × (out.0 ≡ ok o)
    × First.IsAnswer 200 Data.bob 60 (Data.tables Data.waiting).jobs out.1.jobs o
claim_due_scan_job-IsAnswer_example =
    First.claim_due_scan_job-IsAnswer Data.postgres 200 Data.bob 60 (Data.tables Data.waiting)
      (omega arith) refl

-- Blocks 5 to 14 in ranges of 4: 5-8, 9-12, 13-14.
abbrev three_ranges : List BlockRange
three_ranges =
    record { from_block = pos 5; to_block = pos 8 }
    ∷ record { from_block = pos 9; to_block = pos 12 }
    ∷ record { from_block = pos 13; to_block = pos 14 }
    ∷ []

three_ranges_run : Ranges.bounded_block_ranges (pos 5) (pos 14) (pos 4) ≡ ok three_ranges
unfolding Ranges.bounded_block_ranges ◌-ℤ◌ ◌+ℤ◌ saturating_add wrap_i64
three_ranges_run = refl

bounded_block_ranges-covers_once_example :
    Partition.count_holding (pos 9) three_ranges
    ≡ (if leb_ℤ (pos 5) (pos 9) && leb_ℤ (pos 9) (pos 14) then 1 else 0)
bounded_block_ranges-covers_once_example =
    Partition.bounded_block_ranges-covers_once (pos 9) (pos 5) (pos 14) (pos 4) three_ranges
      (omega arith) (omega arith) (omega arith) three_ranges_run

bounded_block_ranges-IsPartition_example :
    (rs : List BlockRange) × (Ranges.bounded_block_ranges (pos 5) (pos 14) (pos 4) ≡ ok rs)
    × Partition.IsPartition (pos 4) (pos 5) (pos 14) rs
bounded_block_ranges-IsPartition_example =
    Partition.bounded_block_ranges-IsPartition (pos 5) (pos 14) (pos 4) (omega arith) (omega arith)
      (omega arith) (omega arith)

-- A scan from the cursor at 100 to the confirmed block 188, and the one after it.
first_scan :
    Cursors.evm_transfer_scan_range (some (Data.cursor 100)) (pos 200) (pos 12)
    ≡ ok (some (pos 101, pos 188))
unfolding Cursors.evm_transfer_scan_range ◌-ℤ◌ ◌+ℤ◌ saturating_add wrap_i64
first_scan = refl

second_scan :
    Cursors.evm_transfer_scan_range (some (Data.cursor 188)) (pos 210) (pos 12)
    ≡ ok (some (pos 189, pos 198))
unfolding Cursors.evm_transfer_scan_range ◌-ℤ◌ ◌+ℤ◌ saturating_add wrap_i64
second_scan = refl

evm_transfer_scan_range-resumes_example :
    (pos 188 ≡ pos 200 -ℤ pos 12)
    × (pos 101 ≤ℤ pos 188)
    × (pos 189 ≡ pos 188 +ℤ pos 1)
    × (pos 200 <ℤ pos 210)
evm_transfer_scan_range-resumes_example =
    Progress.evm_transfer_scan_range-resumes (some (Data.cursor 100)) (Data.cursor 188) (pos 200)
      (pos 210) (pos 12) (pos 101) (pos 188) (pos 189) (pos 198) (omega arith) (omega arith)
      (omega arith) (omega arith) (omega arith) (omega arith) (unfold ◌+ℤ◌ in omega arith)
      (unfold ◌+ℤ◌ in omega arith) refl first_scan second_scan
