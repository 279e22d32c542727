-- ===== src/Storage/ScanJobs/Due.antt =====
-- Which jobs are due and which comes first, in words of the rows, against the tests of
-- CLAIM_DUE_SCAN_JOB_QUERY.
use coin_listener.Prelude.{
  ℕ, ◌+◌, ◌*◌, ◌<◌, ◌≤◌, ◌≡◌, ◌↔◌, ◌⊎◌, refl, Bool, true, false, ◌&&◌, Option, none, some, arith,
  Bool-cases, inl, inr, none-ne-some, eq_of_some, ap, sym, ◌∙◌,
}
use mathlib.Core.Bool.{false≢true}
use coin_listener.Prelude.Text.{Text}
use coin_listener.Core.Clock.{Time}
use coin_listener.Core.Models.{ScanJob, ScanJobStatus}
use coin_listener.Storage.ScanJobs
use coin_listener.Storage.ScanJobs.Claim

-- The lease of a job that is being processed has run out.
abbrev pub IsExpired : Time → ScanJob → Type 0
IsExpired now j =
    (j.status ≡ ScanJobStatus.processing)
    × ((lease : Time) × (j.lease_expires_at ≡ some lease) × (lease ≤ now))

abbrev pub IsWaiting : ScanJob → Type 0
IsWaiting j = (j.status ≡ ScanJobStatus.pending) ⊎ (j.status ≡ ScanJobStatus.retryable)

-- A job that waits is due from `next_attempt_at` on, one whose lease ran out while it has attempts.
abbrev pub IsDue : Time → ScanJob → Type 0
IsDue now j =
    (IsWaiting j × (j.next_attempt_at ≤ now))
    ⊎ (IsExpired now j × (j.attempt_count < j.max_attempts))

-- Expired leases come first, then the earliest `next_attempt_at`, then the earliest `created_at`.
abbrev pub IsEarlier : Time → ScanJob → ScanJob → Type 0
IsEarlier now i k =
    (IsExpired now i × (IsExpired now k → ⊥))
    ⊎ ((IsExpired now i ↔ IsExpired now k)
        × ((i.next_attempt_at < k.next_attempt_at)
            ⊎ ((i.next_attempt_at ≡ k.next_attempt_at) × (i.created_at < k.created_at))))

-- The row that a claim by `w` makes of `k`.
pub record IsClaimOf (now : Time) (w : Text) (ttl : ℕ) (k c : ScanJob) : Type 0 where
  pub id : c.id ≡ k.id
  pub address : c.address_id ≡ k.address_id
  pub status : c.status ≡ ScanJobStatus.processing
  pub attempts : c.attempt_count ≡ k.attempt_count + 1
  pub limit : c.max_attempts ≡ k.max_attempts
  pub locked : c.locked_at ≡ some now
  pub owner : c.locked_by ≡ some w
  pub lease : c.lease_expires_at ≡ some (now + ttl * 1_000_000)

pub claimed_row-IsClaimOf :
    (now : Time) (w : Text) (ttl : ℕ) (k : ScanJob)
    → IsClaimOf now w ttl k (Claim.claimed_row now w ttl k)
unfolding Claim.claimed_row
claimed_row-IsClaimOf now w ttl k = record {
  id = refl;
  address = refl;
  status = refl;
  attempts = refl;
  limit = refl;
  locked = refl;
  owner = refl;
  lease = refl;
}

processing_iff :
    (s : ScanJobStatus) → (ScanJobs.is_processing s ≡ true) ↔ (s ≡ ScanJobStatus.processing)
processing_iff s = (of_test s, λ e. ap ScanJobs.is_processing e)
  where
    of_test : (s : ScanJobStatus) → ScanJobs.is_processing s ≡ true → s ≡ ScanJobStatus.processing
    of_test ScanJobStatus.processing h = refl
    of_test ScanJobStatus.pending h = absurd (false≢true h)
    of_test ScanJobStatus.retryable h = absurd (false≢true h)
    of_test ScanJobStatus.succeeded h = absurd (false≢true h)
    of_test ScanJobStatus.dead_letter h = absurd (false≢true h)

waiting_iff :
    (s : ScanJobStatus)
    → (ScanJobs.is_waiting s ≡ true) ↔ ((s ≡ ScanJobStatus.pending) ⊎ (s ≡ ScanJobStatus.retryable))
waiting_iff s =
    (of_test s, λ h. elim h [ inl e ↦ ap ScanJobs.is_waiting e | inr e ↦ ap ScanJobs.is_waiting e ])
  where
    of_test :
        (s : ScanJobStatus)
        → ScanJobs.is_waiting s ≡ true
        → (s ≡ ScanJobStatus.pending) ⊎ (s ≡ ScanJobStatus.retryable)
    of_test ScanJobStatus.pending h = inl refl
    of_test ScanJobStatus.retryable h = inr refl
    of_test ScanJobStatus.processing h = absurd (false≢true h)
    of_test ScanJobStatus.succeeded h = absurd (false≢true h)
    of_test ScanJobStatus.dead_letter h = absurd (false≢true h)

at_most_iff :
    (l : Option Time) (now : Time)
    → (ScanJobs.at_most l now ≡ true) ↔ ((t : Time) × (l ≡ some t) × (t ≤ now))
at_most_iff none now = (λ h. absurd (false≢true h), λ (t, e, le). absurd (none-ne-some e))
at_most_iff (some l) now =
    (λ h. (l, refl, ground arith), λ (t, e, le). let q : l ≡ t = eq_of_some e in ground arith)

and_iff : {a b : Bool} → ((a && b) ≡ true) ↔ ((a ≡ true) × (b ≡ true))
and_iff = (λ h. (ground arith, ground arith), λ (p, q). ground arith)

pub is_expired-IsExpired :
    (now : Time) (j : ScanJob) → (Claim.is_expired now j ≡ true) ↔ IsExpired now j
is_expired-IsExpired now j = (
  λ h.
      let (p, q) = and_iff.0 h in
      ((processing_iff j.status).0 p, (at_most_iff j.lease_expires_at now).0 q),
  λ (p, q). and_iff.1 ((processing_iff j.status).1 p, (at_most_iff j.lease_expires_at now).1 q),
)

pub is_due-IsDue : (now : Time) (j : ScanJob) → (Claim.is_due now j ≡ true) ↔ IsDue now j
is_due-IsDue now j = (λ h. of_test h (Bool-cases (ScanJobs.is_waiting j.status)), into)
  where
    of_test :
        Claim.is_due now j ≡ true
        → (ScanJobs.is_waiting j.status ≡ true) ⊎ (ScanJobs.is_waiting j.status ≡ false)
        → IsDue now j
    of_test h (inl waits) = inl ((waiting_iff j.status).0 waits, ground arith)
    of_test h (inr busy) = inr ((is_expired-IsExpired now j).0 (ground arith), ground arith)

    into : IsDue now j → Claim.is_due now j ≡ true
    into (inl (waits, le)) = let w = (waiting_iff j.status).1 waits in ground arith
    into (inr (expired, left)) = let e = (is_expired-IsExpired now j).1 expired in ground arith

pub precedes-IsEarlier :
    (now : Time) (i k : ScanJob) → IsEarlier now i k → Claim.precedes now i k ≡ true
unfolding Claim.precedes
precedes-IsEarlier now i k (inl (e, n)) =
    let first = (is_expired-IsExpired now i).1 e in
    elim (Bool-cases (Claim.is_expired now k)) [
      | inl also ↦ absurd (n ((is_expired-IsExpired now k).0 also))
      | inr later ↦ rw (first, later) refl
    ]
precedes-IsEarlier now i k (inr (both, times)) =
    of_ranks (Bool-cases (Claim.is_expired now i)) (Bool-cases (Claim.is_expired now k))
  where
    of_ranks :
        (Claim.is_expired now i ≡ true) ⊎ (Claim.is_expired now i ≡ false)
        → (Claim.is_expired now k ≡ true) ⊎ (Claim.is_expired now k ≡ false)
        → Claim.precedes now i k ≡ true
    of_ranks (inl p) (inl q) = rw (p, q) (ground (arith, times))
    of_ranks (inr p) (inr q) = rw (p, q) (ground (arith, times))
    of_ranks (inl p) (inr q) = absurd (
        false≢true
          (sym q ∙ (is_expired-IsExpired now k).1 (both.0 ((is_expired-IsExpired now i).0 p))))
    of_ranks (inr p) (inl q) = absurd (
        false≢true
          (sym p ∙ (is_expired-IsExpired now i).1 (both.1 ((is_expired-IsExpired now k).0 q))))
