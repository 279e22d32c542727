-- ===== src/Notifier/Batch/Delays.antt =====
-- The delays before another attempt, of jobs and of outbox rows.
use coin_listener.Prelude.{ℕ, zero, suc, ◌+◌, ◌≤◌, ◌≡◌, refl, arith, if◌then◌else◌, leb, ap, sym}
use coin_listener.Core.Clock.{Time, seconds}
use coin_listener.Storage.ScanJobs.{scan_job_next_attempt_at}
use coin_listener.Notifier.Batch.{notification_outbox_next_attempt_at}

abbrev delay : ℕ → ℕ
delay n =
    if leb n 1
    then seconds 30
    else if leb n 2
    then seconds 60
    else if leb n 3
    then seconds 300
    else if leb n 4
    then seconds 900
    else seconds 3600

delay_long : (n : ℕ) → delay (suc (suc (suc (suc (suc n))))) ≡ seconds 3600
delay_long n = ground arith

scan_job_lem : (now : Time) (n : ℕ) → scan_job_next_attempt_at now n ≡ now + delay n
unfolding scan_job_next_attempt_at
scan_job_lem now zero = refl
scan_job_lem now (suc zero) = refl
scan_job_lem now (suc (suc zero)) = refl
scan_job_lem now (suc (suc (suc zero))) = refl
scan_job_lem now (suc (suc (suc (suc zero)))) = refl
scan_job_lem now (suc (suc (suc (suc (suc n))))) = ap (λ d. now + d) (sym (delay_long n))

outbox_lem : (now : Time) (n : ℕ) → notification_outbox_next_attempt_at now n ≡ now + delay n
unfolding notification_outbox_next_attempt_at
outbox_lem now zero = refl
outbox_lem now (suc zero) = refl
outbox_lem now (suc (suc zero)) = refl
outbox_lem now (suc (suc (suc zero))) = refl
outbox_lem now (suc (suc (suc (suc zero)))) = refl
outbox_lem now (suc (suc (suc (suc (suc n))))) = ap (λ d. now + d) (sym (delay_long n))

delay_bounds :
    (a b : ℕ) → a ≤ b → (seconds 30 ≤ delay a) × (delay a ≤ delay b) × (delay b ≤ seconds 3600)
delay_bounds a b h = ground arith

-- Jobs and outbox rows wait for the same time after the same number of attempts; more attempts never
-- wait for less, and the wait is at least 30 seconds and at most an hour.
pub next_attempt_at_mono :
    (now : Time) (a b : ℕ)
    → a ≤ b
    → (notification_outbox_next_attempt_at now a ≡ scan_job_next_attempt_at now a)
      × (now + seconds 30 ≤ scan_job_next_attempt_at now a)
      × (scan_job_next_attempt_at now a ≤ scan_job_next_attempt_at now b)
      × (scan_job_next_attempt_at now b ≤ now + seconds 3600)
next_attempt_at_mono now a b h =
    let (low, mono, high) = delay_bounds a b h in
    rw (scan_job_lem now a, scan_job_lem now b, outbox_lem now a)
      (refl, omega arith, omega arith, omega arith)
