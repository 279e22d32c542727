-- ===== src/Storage/ScanJobs/Invariant.antt =====
-- What every statement on scan jobs keeps: a job holds a lease exactly while it is being processed,
-- is attempted at most `max_attempts` times, and an address has at most one active job.
use coin_listener.Prelude.{
  ℕ, ◌≤◌, ◌<◌, ◌≡◌, refl, Bool, true, false, ◌&&◌, List, [], ◌∷◌, map, Option, none, some, arith,
  ◌==◌, All, Bool-cases, inl, inr, IsIn, eq_of_some,
}
use coin_listener.Storage.Sql.Count.{rows_affected-map_le, eq_of_rows_affected, All-map_of_IsIn}
use coin_listener.Storage.Sql.{All-IsIn}
use native.Mathlib.Nat.{le_trans}
use mathlib.Core.Path.{subst}
use coin_listener.Prelude.{none-ne-some, ◌⊎◌, IsIn, head, tail}
use coin_listener.Prelude.Text.{Text}
use coin_listener.Core.Clock.{Time}
use coin_listener.Core.Models.{Uuid, ScanJob}
use coin_listener.Storage.Sql.{rows_affected}
use coin_listener.Storage.ScanJobs
use coin_listener.Storage.ScanJobs.Claim

abbrev pub is_some {ℓ} : {A : Type ℓ} → Option A → Bool
is_some none = false
is_some (some a) = true

-- A row that the statements can have written, where every job may be attempted `limit` times.
pub record IsJob (limit : ℕ) (j : ScanJob) : Type 0 where
  pub locked : is_some j.locked_by ≡ ScanJobs.is_processing j.status
  pub leased : is_some j.lease_expires_at ≡ ScanJobs.is_processing j.status
  pub limited : j.max_attempts ≡ limit
  pub attempts : j.attempt_count ≤ limit
  pub waits : ScanJobs.is_waiting j.status ≡ true → j.attempt_count < limit
  pub ran : ScanJobs.is_processing j.status ≡ true → 0 < j.attempt_count

module _ (limit : ℕ) where
  claimed_row-IsJob :
      (now : Time) (w : Text) (ttl : ℕ) (j : ScanJob)
      → Claim.is_due now j ≡ true
      → IsJob limit j
      → IsJob limit (Claim.claimed_row now w ttl j)
  unfolding Claim.claimed_row
  claimed_row-IsJob now w ttl j due h = ground arith

  claim_row-IsJob :
      (now : Time) (w : Text) (ttl : ℕ) (due : Option ScanJob) (j : ScanJob)
      → (Claim.is_job due j ≡ true → Claim.is_due now j ≡ true)
      → IsJob limit j
      → IsJob limit (Claim.claim_row now w ttl due j)
  unfolding Claim.claim_row
  claim_row-IsJob now w ttl due j chosen h = elim (Bool-cases (Claim.is_spent now j)) [
    | inl spent ↦ rw spent (ground arith)
    | inr kept ↦ rw kept (elim (Bool-cases (Claim.is_job due j)) [
      | inl taken ↦ rw taken (claimed_row-IsJob now w ttl j (chosen taken) h)
      | inr left ↦ rw left h
    ])
  ]

  pub finished-IsJob :
      (now t : Time) (e : Text) (run : Option Uuid) (j : ScanJob)
      → IsJob limit j
      → IsJob limit (ScanJobs.succeeded_row now run j)
        × IsJob limit (ScanJobs.dead_letter_row now e run j)
        × (j.attempt_count < limit → IsJob limit (ScanJobs.retryable_row now t e run j))
  unfolding ScanJobs.succeeded_row ScanJobs.dead_letter_row ScanJobs.retryable_row
  finished-IsJob now t e run j h = ground arith

abbrev pub has_id : Uuid → ScanJob → Bool
has_id id j = j.id == id

-- The primary key, the unique index on active jobs, and what every row keeps.
pub record IsTable (limit : ℕ) (jobs : List ScanJob) : Type 0 where
  pub rows : All (IsJob limit) jobs
  pub ids : (id : Uuid) → rows_affected (has_id id) jobs ≤ 1
  pub active : (address : Uuid) → rows_affected (ScanJobs.is_active_for address) jobs ≤ 1

better_cases :
    (now : Time) (j k : ScanJob) (o : Option ScanJob)
    → Claim.better now j o ≡ some k
    → ((j ≡ k) × (Claim.is_due now j ≡ true)) ⊎ (o ≡ some k)
better_cases now j k none h = elim (Bool-cases (Claim.is_due now j)) [
  | inl due ↦ inl (eq_of_some (rw due at h), due)
  | inr idle ↦ absurd (none-ne-some (rw idle at h))
]
better_cases now j k (some l) h = elim (Bool-cases (Claim.is_due now j && Claim.precedes now j l)) [
  | inl first ↦ inl (eq_of_some (rw first at h), ground arith)
  | inr later ↦ inr (rw later at h)
]

-- The job that a claim takes stands in the table and is due.
pub first_due-IsIn :
    (now : Time) (jobs : List ScanJob) (k : ScanJob)
    → Claim.first_due now jobs ≡ some k
    → IsIn k jobs × (Claim.is_due now k ≡ true)
unfolding Claim.first_due
first_due-IsIn now [] k h = absurd (none-ne-some h)
first_due-IsIn now (j ∷ js) k h = elim (better_cases now j k (Claim.first_due now js) h) [
  | inl (e, due) ↦ (subst (λ x. IsIn x (j ∷ js)) e head, rw (← e) due)
  | inr rest ↦ let (m, due) = first_due-IsIn now js k rest in (tail m, due)
]

pub taken-is_due :
    (now : Time) (jobs : List ScanJob)
    → ((id : Uuid) → rows_affected (has_id id) jobs ≤ 1)
    → (o : Option ScanJob) → Claim.first_due now jobs ≡ o
    → (j : ScanJob) → IsIn j jobs
    → Claim.is_job o j ≡ true
    → Claim.is_due now j ≡ true
taken-is_due now jobs ids none e j m t = cc
taken-is_due now jobs ids (some k) e j m t =
    let (n, due) = first_due-IsIn now jobs k e in
    let same : j ≡ k = eq_of_rows_affected (has_id k.id) m n (ids k.id) t (has_id_self k) in
    rw same due
  where
    has_id_self : (k : ScanJob) → has_id k.id k ≡ true
    has_id_self k = ground arith

module _ (limit : ℕ) (now : Time) (w : Text) (ttl : ℕ) where
  claim_row-id : (due : Option ScanJob) (j : ScanJob) → (Claim.claim_row now w ttl due j).id ≡ j.id
  unfolding Claim.claim_row
  claim_row-id due j = ground arith

  claim_row-is_active_for :
      (a : Uuid) (due : Option ScanJob) (j : ScanJob)
      → (Claim.is_job due j ≡ true → Claim.is_due now j ≡ true)
      → ScanJobs.is_active_for a (Claim.claim_row now w ttl due j) ≡ true
      → ScanJobs.is_active_for a j ≡ true
  unfolding Claim.claim_row
  claim_row-is_active_for a due j h t = elim (Bool-cases (Claim.is_spent now j)) [
    | inl spent ↦ let t' = rw spent at t in ground arith
    | inr kept ↦ elim (Bool-cases (Claim.is_job due j)) [
      | inl taken ↦ let t' = rw (kept, taken) at t in let due' = h taken in ground arith
      | inr left ↦ rw (kept, left) at t
    ]
  ]

  -- A claim keeps the table in order.
  pub claim-IsTable :
      (jobs : List ScanJob)
      → IsTable limit jobs
      → IsTable limit (map (Claim.claim_row now w ttl (Claim.first_due now jobs)) jobs)
  claim-IsTable jobs h =
      let due = Claim.first_due now jobs in
      let taken = taken-is_due now jobs h.ids due refl in
      record {
        rows = All-map_of_IsIn (IsJob limit) (Claim.claim_row now w ttl due) jobs (λ j m.
            claim_row-IsJob limit now w ttl due j (taken j m) (All-IsIn (IsJob limit) h.rows m));
        ids = λ id.
            le_trans
              (rows_affected-map_le (has_id id) (Claim.claim_row now w ttl due) jobs
                (λ j m t. rw (claim_row-id due j) at t))
              (h.ids id);
        active = λ a.
            le_trans
              (rows_affected-map_le (ScanJobs.is_active_for a) (Claim.claim_row now w ttl due) jobs
                (λ j m t. claim_row-is_active_for a due j (taken j m) t))
              (h.active a);
      }
