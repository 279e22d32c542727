-- ===== src/Scheduler/Drain.antt =====
-- A whole tick: the addresses that it serves, and those that it leaves for the next one.
use coin_listener.Prelude.{
  ℕ, zero, suc, ◌+◌, ◌≤◌, ◌≡◌, ◌⊎◌, refl, Bool, true, false, List, [], ◌∷◌, ◌++◌, Option, none,
  some, arith, IsIn, Bool-cases, inl, inr, sym, ◌∙◌, ap, length,
}
use mathlib.Core.Bool.{false≢true}
use mathlib.Core.List.{append_assoc, append-nil}
use coin_listener.Prelude.Text.{Text}
use coin_listener.Prelude.Int.{pos}
use coin_listener.Core.Error.{AppResult, ok, err}
use coin_listener.Core.Action.{bind_result}
use coin_listener.Core.Clock.{Time}
use coin_listener.Core.Models.{ScanJob}
use coin_listener.Storage.Addresses.{WatchedAddress, is_claimable, is_due}
use coin_listener.Storage.Sql.Count.{rows_affected-IsIn}
use coin_listener.Storage.ScanJobs
use coin_listener.Scheduler
use coin_listener.Scheduler.{
  SchedulerTables, Services, enqueue_one, enqueue_loop, after_round, after_commit,
}
use coin_listener.Scheduler.Rounds.{
  IsRound, IsServing, Keeps, due_count, is_served, any-append, enqueue_one-IsRound,
}

-- After a tick that returned `n`, with a batch of `k`.
pub record IsTick (now : Time) (k : ℕ) (s : SchedulerTables) (n : ℕ) (t : SchedulerTables)
    : Type 0 where
  pub added : List ScanJob
  pub jobs : t.jobs ≡ s.jobs ++ added
  pub count : length added ≡ n
  pub bounded : n ≤ k
  pub keeps : Keeps now s t
  pub fewer : due_count now t + n ≤ due_count now s
  pub ended : (due_count now t ≡ 0) ⊎ (n ≡ k)

is_served_later :
    (s t : SchedulerTables) (added : List ScanJob) (a : WatchedAddress)
    → t.jobs ≡ s.jobs ++ added
    → is_served s a.id ≡ true
    → is_served t a.id ≡ true
is_served_later s t added a e h = rw e (any-append (ScanJobs.is_active_for a.id) s.jobs added h)

Keeps-trans :
    (now : Time) (s t u : SchedulerTables) (added : List ScanJob)
    → u.jobs ≡ t.jobs ++ added
    → Keeps now s t
    → Keeps now t u
    → Keeps now s u
Keeps-trans now s t u added e first second a m due = elim (first a m due) [
  | inl served ↦ inl (is_served_later t u added a e served)
  | inr waits ↦ second a waits due
]

plus_zero : (e : ℕ) → e + 0 ≡ e
plus_zero e = omega arith

zero_plus : (n : ℕ) → 0 + n ≡ n
zero_plus n = omega arith

plus_suc : (e n : ℕ) → e + 1 + n ≡ e + suc n
plus_suc e n = omega arith

waiting_claimable :
    (now : Time) (a : WatchedAddress) (t : SchedulerTables)
    → is_due now a ≡ true
    → is_served t a.id ≡ false
    → is_claimable t.jobs now a ≡ true
unfolding is_claimable
waiting_claimable now a t due unserved = ground arith

module _ (services : Services) (limit : ℕ) (now : Time) where
  abbrev IsLoop : ℕ → ℕ → SchedulerTables → AppResult ℕ × SchedulerTables → Type 0
  IsLoop k e s q = (n : ℕ) × (t : SchedulerTables) × (q ≡ (ok (e + n), t)) × IsTick now k s n t

  IsTick-none : (k : ℕ) (s : SchedulerTables) → (due_count now s ≡ 0) ⊎ (0 ≡ k) → IsTick now k s 0 s
  IsTick-none k s h = record {
    added = [];
    jobs = sym (append-nil s.jobs);
    count = refl;
    bounded = omega arith;
    keeps = λ a m due. inr m;
    fewer = omega arith;
    ended = h;
  }

  IsTick-suc :
      (k n : ℕ) (s t u : SchedulerTables)
      → IsServing now s t
      → IsTick now k t n u
      → IsTick now (suc k) s (suc n) u
  IsTick-suc k n s t u first rest = record {
    added = first.job ∷ rest.added;
    jobs =
        rest.jobs
        ∙ (ap (λ js. js ++ rest.added) first.jobs
            ∙ append_assoc s.jobs (first.job ∷ []) rest.added);
    count = omega (arith, rest.count);
    bounded = omega (arith, rest.bounded);
    keeps = Keeps-trans now s t u rest.added rest.jobs first.keeps rest.keeps;
    fewer = omega (arith, first.fewer, rest.fewer);
    ended = elim rest.ended [ inl none_due ↦ inl none_due | inr full ↦ inr (omega (arith, full)) ];
  }

  after_commit-IsServing :
      (s t : SchedulerTables) (failure : Option Text)
      → IsServing now s t
      → IsServing now s (after_commit failure t)
  unfolding after_commit
  after_commit-IsServing s t failure h = record {
    fewer = h.fewer;
    job = h.job;
    jobs = h.jobs;
    keeps = h.keeps;
  }

  enqueue_loop-IsLoop :
      (k e : ℕ) (s : SchedulerTables) → IsLoop k e s (enqueue_loop services limit now k e s)
  unfolding enqueue_loop
  enqueue_loop-IsLoop zero e s = (0, s, rw (plus_zero e) refl, IsTick-none 0 s (inr refl))
  enqueue_loop-IsLoop (suc k) e s =
      after (enqueue_one services limit now s) (enqueue_one-IsRound services limit now s)
        (λ f t. enqueue_loop-IsLoop k f t)
    where
      after :
          (p : AppResult (Option Bool) × SchedulerTables)
          → IsRound now s p
          → ((f : ℕ) (t : SchedulerTables) → IsLoop k f t (enqueue_loop services limit now k f t))
          → IsLoop
              (suc k)
              e
              s
              (bind_result p (after_round services limit now (enqueue_loop services limit now k) e))
      after (err x, t) h rest = absurd h
      after (ok none, t) h rest =
          (0, s, rw (plus_zero e, h.0) refl, IsTick-none (suc k) s (inl h.1))
      after (ok (some false), t) h rest = absurd (false≢true h.0)
      after (ok (some true), t) h rest =
          let next = after_commit (services.redis_failure t) t in
          let (n, u, q, tick) = rest (e + 1) next in
          (
            suc n,
            u,
            q ∙ ap (λ m. (ok m, u)) (plus_suc e n),
            IsTick-suc k n s next u (after_commit-IsServing s t (services.redis_failure t) h.1)
                tick,
          )

  -- A tick returns, whether or not Redis answers: `n`, at most the batch size, jobs have joined the
  -- end of the queue, and `n` is what it returns; each address that was due has an active job, or
  -- stands unchanged; and either no address can be claimed any more, or the batch is full.
  pub enqueue_due_addresses-IsTick :
      (batch_size : ℕ) (s : SchedulerTables)
      → (n : ℕ) × (t : SchedulerTables) × (Scheduler.enqueue_due_addresses services limit now
            (pos batch_size)
            s
          ≡ (ok n, t))
        × IsTick now batch_size s n t
  unfolding Scheduler.enqueue_due_addresses
  enqueue_due_addresses-IsTick batch_size s =
      let (n, t, q, tick) = enqueue_loop-IsLoop batch_size 0 s in
      (n, t, q ∙ ap (λ m. (ok m, t)) (zero_plus n), tick)

  -- When the batch size is at least the number of addresses that a claim could take, every address
  -- that was due has an active job after the tick.
  pub enqueue_due_addresses-serves :
      (batch_size : ℕ) (s : SchedulerTables)
      → due_count now s ≤ batch_size
      → (a : WatchedAddress) → IsIn a s.addresses
      → is_due now a ≡ true
      → is_served (Scheduler.enqueue_due_addresses services limit now (pos batch_size) s).1 a.id
        ≡ true
  enqueue_due_addresses-serves batch_size s enough a m due =
      let (n, t, q, tick) = enqueue_due_addresses-IsTick batch_size s in
      let drained : due_count now t ≡ 0 = omega (arith, tick.fewer, tick.ended) in
      rw q (elim (tick.keeps a m due) [
        | inl served ↦ served
        | inr waits ↦ elim (Bool-cases (is_served t a.id)) [
          | inl served ↦ served
          | inr unserved ↦
              let some_row =
                rows_affected-IsIn (is_claimable t.jobs now) waits
                  (waiting_claimable now a t due unserved) in
              absurd (omega (arith, some_row, drained))
        ]
      ])
