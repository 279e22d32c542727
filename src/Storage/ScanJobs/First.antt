-- ===== src/Storage/ScanJobs/First.antt =====
-- The order in which claims take the due jobs.
use coin_listener.Prelude.{
  ℕ, ◌≡◌, refl, Bool, true, false, ◌&&◌, List, [], ◌∷◌, Option, none, some, arith, ltb, ◌==◌,
  Bool-cases, inl, inr, IsIn, map, ◌≤◌, head, tail, ◌||◌,
}
use mathlib.Core.Option
use mathlib.Core.Bool.{false≢true}
use mathlib.Core.Path.{subst}
use coin_listener.Storage.Sql.{IsIn-map_of}
use coin_listener.Prelude.Text.{Text}
use coin_listener.Core.Error.{ok}
use coin_listener.Core.Clock.{Time}
use coin_listener.Core.Machine.{i64_max}
use coin_listener.Core.Models.{ScanJob}
use coin_listener.Storage.Postgres.{Postgres}
use coin_listener.Storage.ScanJobs
use coin_listener.Storage.ScanJobs.Due.{
  IsDue, IsEarlier, IsClaimOf, is_due-IsDue, precedes-IsEarlier, claimed_row-IsClaimOf,
}
use coin_listener.Storage.ScanJobs.Claim
use coin_listener.Storage.ScanJobs.Claim.{ScanTables}
use coin_listener.Storage.ScanJobs.Invariant.{first_due-IsIn}

abbrev lex : ℕ → ℕ → ℕ → ℕ → ℕ → ℕ → Bool
lex r s n m c d = ltb r s || ((r == s) && (ltb n m || (n == m && ltb c d)))

lex_irreflexive : (r n c : ℕ) → lex r r n n c c ≡ false
lex_irreflexive r n c = ground arith

lex_trans :
    (r s t n m l c d e : ℕ)
    → lex r s n m c d ≡ true
    → lex s t m l d e ≡ true
    → lex r t n l c e ≡ true
lex_trans r s t n m l c d e p q = ground arith

module _ (now : Time) where
  not_precedes_self : (j : ScanJob) → Claim.precedes now j j ≡ false
  unfolding Claim.precedes
  not_precedes_self j = lex_irreflexive (Claim.rank now j) j.next_attempt_at j.created_at

  precedes_trans :
      (i j k : ScanJob)
      → Claim.precedes now i j ≡ true
      → Claim.precedes now j k ≡ true
      → Claim.precedes now i k ≡ true
  unfolding Claim.precedes
  precedes_trans i j k =
      lex_trans (Claim.rank now i) (Claim.rank now j) (Claim.rank now k) i.next_attempt_at
        j.next_attempt_at k.next_attempt_at i.created_at j.created_at k.created_at

  -- A due job of the table does not come before the one that is taken.
  abbrev pub IsFirst : ScanJob → List ScanJob → Type 0
  IsFirst k jobs =
      (i : ScanJob) → IsIn i jobs → Claim.is_due now i ≡ true → Claim.precedes now i k ≡ false

  abbrev IsBest : Option ScanJob → List ScanJob → Type 0
  IsBest none jobs = (i : ScanJob) → IsIn i jobs → Claim.is_due now i ≡ false
  IsBest (some k) jobs = IsFirst k jobs

  on_rows :
      (P : ScanJob → Type 0) (j : ScanJob) (js : List ScanJob)
      → P j
      → ((i : ScanJob) → IsIn i js → P i)
      → (i : ScanJob) → IsIn i (j ∷ js)
      → P i
  on_rows P j js p q i head = p
  on_rows P j js p q i (tail m) = q i m

  better-IsBest :
      (j : ScanJob) (o : Option ScanJob) (js : List ScanJob)
      → IsBest o js
      → IsBest (Claim.better now j o) (j ∷ js)
  better-IsBest j none js b = elim (Bool-cases (Claim.is_due now j)) [
    | inl due ↦ rw due (
        on_rows (λ i. Claim.is_due now i ≡ true → Claim.precedes now i j ≡ false) j js
          (λ d. not_precedes_self j) (λ i m d. absurd (false≢true (rw (b i m) at d))))
    | inr idle ↦ rw idle (on_rows (λ i. Claim.is_due now i ≡ false) j js idle b)
  ]
  better-IsBest j (some k) js b = elim (Bool-cases (Claim.is_due now j && Claim.precedes now j k)) [
    | inl first ↦ rw first (
        on_rows (λ i. Claim.is_due now i ≡ true → Claim.precedes now i j ≡ false) j js
          (λ d. not_precedes_self j) (λ i m d. not_before i (b i m d) (ground arith)))
    | inr later ↦ rw later (
        on_rows (λ i. Claim.is_due now i ≡ true → Claim.precedes now i k ≡ false) j js
          (λ d. not_both later d) b)
  ]
    where
      not_before :
          (i : ScanJob)
          → Claim.precedes now i k ≡ false
          → Claim.precedes now j k ≡ true
          → Claim.precedes now i j ≡ false
      not_before i p q = elim (Bool-cases (Claim.precedes now i j)) [
        | inl yes' ↦ absurd (false≢true (rw p at (precedes_trans i j k yes' q)))
        | inr no' ↦ no'
      ]

      not_both : {a b : Bool} → (a && b) ≡ false → a ≡ true → b ≡ false
      not_both h t = cc

  first_due-IsBest : (jobs : List ScanJob) → IsBest (Claim.first_due now jobs) jobs
  unfolding Claim.first_due
  first_due-IsBest [] = λ i m. elim m [ ]
  first_due-IsBest (j ∷ js) = better-IsBest j (Claim.first_due now js) js (first_due-IsBest js)

module _ (now : Time) (w : Text) (ttl : ℕ) (before after : List ScanJob) where
  -- What a claim may answer on the table `before`, and the table `after`: nothing when no job is
  -- due; else the claim of a due job that no due job comes before, which is in the table.
  abbrev pub IsAnswer : Option ScanJob → Type 0
  IsAnswer none = (i : ScanJob) → IsIn i before → IsDue now i → ⊥
  IsAnswer (some c) =
      (k : ScanJob) × IsIn k before
      × IsDue now k
      × ((i : ScanJob) → IsIn i before → IsDue now i → IsEarlier now i k → ⊥)
      × IsClaimOf now w ttl k c
      × IsIn c after

due_not_spent :
    (now : Time) (k : ScanJob) → Claim.is_due now k ≡ true → Claim.is_spent now k ≡ false
due_not_spent now k d = ground arith

module _ (now : Time) (w : Text) (ttl : ℕ) (jobs : List ScanJob) where
  claimed-IsIn :
      (k : ScanJob)
      → IsIn k jobs
      → Claim.is_due now k ≡ true
      → IsIn (Claim.claimed_row now w ttl k) (map (Claim.claim_row now w ttl (some k)) jobs)
  claimed-IsIn k m d =
      subst (λ x. IsIn x (map (Claim.claim_row now w ttl (some k)) jobs)) taken
        (IsIn-map_of (Claim.claim_row now w ttl (some k)) m)
    where
      same : (k.id == k.id) ≡ true
      same = ground arith

      taken : Claim.claim_row now w ttl (some k) k ≡ Claim.claimed_row now w ttl k
      taken = unfold Claim.claim_row in rw (due_not_spent now k d) (rw same refl)

  answer :
      (o : Option ScanJob)
      → Claim.first_due now jobs ≡ o
      → IsBest now o jobs
      → IsAnswer now w ttl jobs
          (map (Claim.claim_row now w ttl o) jobs)
          (Option.map (Claim.claimed_row now w ttl) o)
  answer none e b = λ i m d. false≢true (rw (b i m) at ((is_due-IsDue now i).1 d))
  answer (some k) e b =
      let (m, d) = first_due-IsIn now jobs k e in
      (
        k,
        m,
        (is_due-IsDue now k).0 d,
        λ i n due earlier.
            false≢true
              (rw (b i n ((is_due-IsDue now i).1 due)) at (precedes-IsEarlier now i k earlier)),
        claimed_row-IsClaimOf now w ttl k,
        claimed-IsIn k m d,
      )

-- A claim whose lease length fits in an i64, and whose lease ends in the range of the database's
-- times, succeeds. It answers nothing exactly if no job is due; otherwise it answers a due job that
-- no due job precedes (expired leases first, then the earliest `next_attempt_at`, then the earliest
-- `created_at`), with one more attempt, processing, under a lease for the worker until `now + ttl`,
-- and that row is in the table afterwards.
pub claim_due_scan_job-IsAnswer :
    (pg : Postgres) (now : Time) (w : Text) (ttl : ℕ) (db : ScanTables)
    → ttl ≤ i64_max
    → pg.lease_error now ttl ≡ none
    → let out = Claim.claim_due_scan_job pg now w ttl db in
      (o : Option ScanJob) × (out.0 ≡ ok o) × IsAnswer now w ttl db.jobs out.1.jobs o
unfolding Claim.claim_due_scan_job
claim_due_scan_job-IsAnswer pg now w ttl db fits in_range = rw no_failure (
  Option.map (Claim.claimed_row now w ttl) (Claim.first_due now db.jobs),
  refl,
  answer now w ttl db.jobs (Claim.first_due now db.jobs) refl (first_due-IsBest now db.jobs),
)
  where
    short : ltb i64_max ttl ≡ false
    short = ground arith

    no_failure :
        ScanJobs.lease_failure pg now ttl (Claim.is_taken (Claim.first_due now db.jobs)) ≡ none
    no_failure = unfold ScanJobs.lease_failure in rw (short, in_range) (ground arith)
