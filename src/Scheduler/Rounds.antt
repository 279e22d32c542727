-- ===== src/Scheduler/Rounds.antt =====
-- One round of a tick: it serves an address that was due, or finds that none is.
use coin_listener.Prelude.{
  if◌then◌else◌, Bool, any, ℕ, ◌≤◌, ◌<◌, ◌≡◌, ◌⊎◌, refl, Bool, true, false, any, List, [], ◌∷◌,
  ◌++◌, Option, none, some, arith, ◌==◌, IsIn, head, filter, Bool-cases, inl, inr, sym, ◌∙◌,
}
use mathlib.Core.Bool.{false≢true}
use mathlib.Core.Path.{subst}
use coin_listener.Core.Error.{AppResult, ok, err}
use coin_listener.Core.Clock.{Time}
use coin_listener.Core.Models.{Uuid, ScanJob}
use coin_listener.Storage.Addresses
use coin_listener.Storage.Addresses.{WatchedAddress, is_claimable, is_due, precedes}
use coin_listener.Storage.Sql.{rows_affected, update_where, IsIn-update_where}
use coin_listener.Storage.Sql.Count.{rows_affected-updated_lt, rows_affected-IsIn}
use coin_listener.Storage.Sql.Order.{order_by, order_by-IsIn, IsIn-filter}
use coin_listener.Storage.ScanJobs
use coin_listener.Scheduler.{
  SchedulerTables, Services, enqueue_candidate, enqueue_claimed, enqueue_one,
}

-- How many addresses a claim could take.
abbrev pub due_count : Time → SchedulerTables → ℕ
due_count now s = rows_affected (is_claimable s.jobs now) s.addresses

abbrev pub is_served : SchedulerTables → Uuid → Bool
is_served s id = any (ScanJobs.is_active_for id) s.jobs

-- A due row has a job afterwards, or still waits for one as it was.
abbrev pub Keeps : Time → SchedulerTables → SchedulerTables → Type 0
Keeps now s t =
    (a : WatchedAddress)
    → IsIn a s.addresses
    → is_due now a ≡ true
    → (is_served t a.id ≡ true) ⊎ IsIn a t.addresses

pub record IsServing (now : Time) (s t : SchedulerTables) : Type 0 where
  pub fewer : due_count now t < due_count now s
  pub job : ScanJob
  pub jobs : t.jobs ≡ s.jobs ++ job ∷ []
  pub keeps : Keeps now s t

abbrev pub IsRound : Time → SchedulerTables → AppResult (Option Bool) × SchedulerTables → Type 0
IsRound now s (ok none, t) = (t ≡ s) × (due_count now s ≡ 0)
IsRound now s (ok (some inserted), t) = (inserted ≡ true) × IsServing now s t
IsRound now s (err e, t) = ⊥

pub any-append :
    (test : ScanJob → Bool) (js ks : List ScanJob) → any test js ≡ true → any test (js ++ ks) ≡ true
any-append test [] ks h = absurd (cc)
any-append test (j ∷ js) ks h = ground (arith, any-append test js ks)

any-snoc :
    (test : ScanJob → Bool) (js : List ScanJob) (k : ScanJob)
    → test k ≡ true
    → any test (js ++ k ∷ []) ≡ true
any-snoc test [] k h = ground arith
any-snoc test (j ∷ js) k h = ground (arith, any-snoc test js k h)

none_of_filter :
    (test : WatchedAddress → Bool) (rows : List WatchedAddress)
    → ((a : WatchedAddress) → IsIn a (filter test rows) → ⊥)
    → rows_affected test rows ≡ 0
unfolding rows_affected
none_of_filter test [] h = refl
none_of_filter test (r ∷ rows) h = elim (Bool-cases (test r)) [
  | inl yes' ↦ absurd (h r (rw yes' head))
  | inr no' ↦ rw no' (omega (arith, none_of_filter test rows (λ a m. h a (rw no' m))))
]

is_claimable-unserved :
    (now : Time) (a : WatchedAddress) (s : SchedulerTables)
    → is_claimable s.jobs now a ≡ true
    → is_served s a.id ≡ false
unfolding is_claimable
is_claimable-unserved now a s t = ground arith

module _ (services : Services) (limit : ℕ) (now : Time) where
  abbrev new_job : WatchedAddress → SchedulerTables → ScanJob
  new_job a s =
      ScanJobs.new_scan_job (services.job_id s.jobs) (services.clock s) a.tenant_id a.id a.chain_id
        limit now none

  abbrev set_row : WatchedAddress → SchedulerTables → WatchedAddress → WatchedAddress
  set_row a s =
      Addresses.enqueued_row (services.clock s)
        (Addresses.next_scan_at_from now a.scan_interval_seconds)

  abbrev next_tables : WatchedAddress → SchedulerTables → SchedulerTables
  next_tables a s = record s {
    addresses =
        update_where (Addresses.has_address_id a.id)
          (Addresses.enqueued_row (services.clock s)
            (Addresses.next_scan_at_from now a.scan_interval_seconds))
          s.addresses;
    jobs = s.jobs ++ new_job a s ∷ [];
  }

  enqueue_candidate-eq :
      (a : WatchedAddress) (s : SchedulerTables)
      → IsIn a s.addresses
      → is_served s a.id ≡ false
      → enqueue_candidate services limit now (Addresses.scan_candidate a) s
        ≡ (ok (some true), next_tables a s)
  unfolding enqueue_candidate ScanJobs.insert_scheduled_scan_job_in_transaction
      Addresses.mark_claimed_scan_enqueued Addresses.ensure_updated
  enqueue_candidate-eq a s m free =
      let some_row : 1 ≤ rows_affected (Addresses.has_address_id a.id) s.addresses =
        rows_affected-IsIn (Addresses.has_address_id a.id) m (ground arith) in
      let updated : (rows_affected (Addresses.has_address_id a.id) s.addresses == 0) ≡ false =
        ground arith in
      rw (free, updated) refl

  is_served_next :
      (a : WatchedAddress) (s : SchedulerTables) → is_served (next_tables a s) a.id ≡ true
  unfolding ScanJobs.new_scan_job
  is_served_next a s = any-snoc (ScanJobs.is_active_for a.id) s.jobs (new_job a s) (ground arith)

  next_tables-Keeps : (a : WatchedAddress) (s : SchedulerTables) → Keeps now s (next_tables a s)
  next_tables-Keeps a s b m due = elim (Bool-cases (Addresses.has_address_id a.id b)) [
    | inl same ↦ let e : b.id ≡ a.id = ground arith in inl (rw e (is_served_next a s))
    | inr other ↦ inr (IsIn-update_where (Addresses.has_address_id a.id) (set_row a s) m other)
  ]

  -- The row of the address has a job now, and the others have not changed.
  next_tables-not_claimable :
      (a : WatchedAddress) (s : SchedulerTables) (q : WatchedAddress)
      → Addresses.has_address_id a.id q ≡ true
      → is_claimable (next_tables a s).jobs now (set_row a s q) ≡ false
  unfolding is_claimable Addresses.enqueued_row
  next_tables-not_claimable a s q same =
      let e : q.id ≡ a.id = ground arith in
      let served : any (ScanJobs.is_active_for q.id) (next_tables a s).jobs ≡ true =
        rw e (is_served_next a s) in
      rw served (ground arith)

  next_tables-claimable :
      (a : WatchedAddress) (s : SchedulerTables) (q : WatchedAddress)
      → is_claimable
          (next_tables a s).jobs
          now
          (if Addresses.has_address_id a.id q then set_row a s q else q)
        ≡ true
      → is_claimable s.jobs now q ≡ true
  unfolding is_claimable
  next_tables-claimable a s q h = elim (Bool-cases (Addresses.has_address_id a.id q)) [
    | inl same ↦ absurd (false≢true (sym (next_tables-not_claimable a s q same) ∙ (rw same at h)))
    | inr other ↦
        let h' = rw other at h in
        ground (arith, any-append (ScanJobs.is_active_for q.id) s.jobs (new_job a s ∷ []))
  ]

  next_tables-fewer :
      (a : WatchedAddress) (s : SchedulerTables)
      → IsIn a s.addresses
      → is_claimable s.jobs now a ≡ true
      → due_count now (next_tables a s) < due_count now s
  next_tables-fewer a s m t =
      let own : Addresses.has_address_id a.id a ≡ true = ground arith in
      rows_affected-updated_lt (is_claimable s.jobs now) (is_claimable (next_tables a s).jobs now)
        (Addresses.has_address_id a.id) (set_row a s) (next_tables-claimable a s) m t
        (rw own (next_tables-not_claimable a s a own))

  enqueue_claimed-IsRound :
      (s : SchedulerTables) (l : List WatchedAddress)
      → order_by precedes (filter (is_claimable s.jobs now) s.addresses) ≡ l
      → IsRound now s (enqueue_claimed services limit now (Addresses.first_candidate l) s)
  unfolding enqueue_claimed
  enqueue_claimed-IsRound s [] e = (
    refl,
    none_of_filter (is_claimable s.jobs now) s.addresses (λ a m.
        let n : IsIn a [] =
          subst (IsIn a) e
            ((order_by-IsIn precedes (filter (is_claimable s.jobs now) s.addresses)).1 m) in
        elim n [ ]),
  )
  enqueue_claimed-IsRound s (a ∷ rest) e =
      let claimable = filter (is_claimable s.jobs now) s.addresses in
      let n : IsIn a claimable =
        (order_by-IsIn precedes claimable).0 (subst (IsIn a) (sym e) head) in
      let (m, t) = (IsIn-filter (is_claimable s.jobs now)).0 n in
      rw (enqueue_candidate-eq a s m (is_claimable-unserved now a s t)) (
        refl,
        record {
          fewer = next_tables-fewer a s m t;
          job = new_job a s;
          jobs = refl;
          keeps = next_tables-Keeps a s;
        },
      )

  pub enqueue_one-IsRound : (s : SchedulerTables) → IsRound now s (enqueue_one services limit now s)
  unfolding enqueue_one Addresses.claim_one_due_scan_address_for_update
  enqueue_one-IsRound s = enqueue_claimed-IsRound s _ refl
