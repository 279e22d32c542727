-- ===== src/Worker/Failover/Course.antt =====
-- The course of a scan over its candidates: which of them are asked, in which order, what each answers
-- and what the scan does then. It does not speak of the health rows.
use coin_listener.Prelude.{
  ◌≡◌, refl, Bool, true, false, List, [], ◌∷◌, ◌++◌, Option, none, some, ap, Bool-cases, inl, inr,
}
use mathlib.Core.List.{append_assoc}
use coin_listener.Prelude.Text.{Text}
use coin_listener.Core.Clock.{Time}
use coin_listener.Core.Error.{AppError, AppResult, ok, err}
use coin_listener.Core.Action.{Action}
use coin_listener.Core.Models.{Uuid, Provider, AddressEvent}
use coin_listener.Storage.ProviderHealth.{
  ProviderCandidate, Redis, record_provider_success, record_provider_failure,
  try_acquire_provider_qps,
}
use coin_listener.Storage.ProviderHealth.Circuit.{Answer, health_after}
use coin_listener.Worker.Paging.{is_provider_availability_error}
use coin_listener.Worker.Failover.{
  FailoverState, after_scan, after_permit, try_candidates, provider_attempts_exhausted_error,
  scan_from,
}

module _ {R D : Type 0} (client : Redis R) (show_uuid : Uuid → Text)
    (scan_with_provider : Provider → Action D (List AddressEvent)) (chain_id : Uuid)
    (now : Time) where
  abbrev State : Type 0
  State = FailoverState R D

  abbrev pub Result : Type 0
  Result = AppResult (List AddressEvent) × State

  abbrev acquired : ProviderCandidate → R → AppResult Bool × R
  acquired c r = try_acquire_provider_qps client c.provider.id c.provider.qps_limit now r

  abbrev pub answer : ProviderCandidate → Option AppError → Answer
  answer c failure = record { provider_id = c.provider.id; answered_at = now; failure = failure }

  abbrev loop : List ProviderCandidate → Option AppError → State → Result
  loop = try_candidates client show_uuid scan_with_provider chain_id now

  -- The course over candidates, after the error `last`, from counters and tables to a result and the
  -- counters and tables then, with the answers, newest first.
  pub data Course
      : List ProviderCandidate
        → Option AppError
        → R
        → D
        → List Answer
        → AppResult (List AddressEvent)
        → R
        → D
        → Type 0 where
    exhausted :
        {last : Option AppError} {r : R} {t : D}
        → Course [] last r t []
            (err (provider_attempts_exhausted_error show_uuid chain_id last))
            r
            t
    uncounted :
        {c : ProviderCandidate} {cs : List ProviderCandidate} {last : Option AppError} {r q : R}
        {t : D} {e : AppError}
        → acquired c r ≡ (err e, q)
        → Course (c ∷ cs) last r t [] (err e) q t
    refused :
        {c : ProviderCandidate} {cs : List ProviderCandidate} {last : Option AppError} {r q : R}
        {t : D} {answers : List Answer} {out : AppResult (List AddressEvent)} {r' : R} {t' : D}
        → acquired c r ≡ (ok false, q)
        → Course cs last q t answers out r' t'
        → Course (c ∷ cs) last r t answers out r' t'
    unavailable :
        {c : ProviderCandidate} {cs : List ProviderCandidate} {last : Option AppError} {r q : R}
        {e : AppError} {t u : D} {answers : List Answer} {out : AppResult (List AddressEvent)}
        {r' : R} {t' : D}
        → acquired c r ≡ (ok true, q)
        → scan_with_provider c.provider t ≡ (err e, u)
        → is_provider_availability_error e ≡ true
        → Course cs (some e) q u answers out r' t'
        → Course (c ∷ cs) last r t (answers ++ answer c (some e) ∷ []) out r' t'
    broken :
        {c : ProviderCandidate} {cs : List ProviderCandidate} {last : Option AppError} {r q : R}
        {e : AppError} {t u : D}
        → acquired c r ≡ (ok true, q)
        → scan_with_provider c.provider t ≡ (err e, u)
        → is_provider_availability_error e ≡ false
        → Course (c ∷ cs) last r t [] (err e) q u
    served :
        {c : ProviderCandidate} {cs : List ProviderCandidate} {last : Option AppError} {r q : R}
        {events : List AddressEvent} {t u : D}
        → acquired c r ≡ (ok true, q)
        → scan_with_provider c.provider t ≡ (ok events, u)
        → Course (c ∷ cs) last r t (answer c none ∷ []) (ok events) q u

  -- The health rows after the scan are those of the history with the answers before it.
  abbrev Records : State → List Answer → Result → Type 0
  Records s answers out =
      (history : List Answer)
      → s.health ≡ health_after history
      → out.1.health ≡ health_after (answers ++ history)

  abbrev pub HasCourse : List ProviderCandidate → Option AppError → State → Result → Type 0
  HasCourse cs last s out =
      (answers : List Answer) × Course cs last s.redis s.tables answers out.0 out.1.redis
        out.1.tables
      × Records s answers out

  abbrev failed_state : State → R → D → ProviderCandidate → AppError → State
  failed_state s q u c e = record {
    health = record_provider_failure c.provider.id now e s.health;
    redis = q;
    tables = u;
  }

  failure-Records :
      (c : ProviderCandidate) (s : State) (q : R) (u : D) (e : AppError) (answers : List Answer)
      (out : Result)
      → Records (failed_state s q u c e) answers out
      → Records s (answers ++ answer c (some e) ∷ []) out
  unfolding health_after
  failure-Records c s q u e answers out later history h =
      rw (append_assoc answers (answer c (some e) ∷ []) history)
        (later (answer c (some e) ∷ history) (ap (record_provider_failure c.provider.id now e) h))

  scan_course :
      (c : ProviderCandidate) (cs : List ProviderCandidate) (last : Option AppError) (s : State)
      (q : R) (got : AppResult (List AddressEvent) × D)
      → acquired c s.redis ≡ (ok true, q)
      → scan_with_provider c.provider s.tables ≡ got
      → ((last : Option AppError) (s : State) → HasCourse cs last s (loop cs last s))
      → HasCourse (c ∷ cs) last s (
          after_scan client show_uuid scan_with_provider chain_id now c.provider
            (record s { redis = q })
            (loop cs)
            got)
  unfolding after_scan health_after
  scan_course c cs last s q (ok events, u) a g rest = (
    answer c none ∷ [],
    served a g,
    λ history h. ap (record_provider_success c.provider.id now) h,
  )
  scan_course c cs last s q (err e, u) a g rest =
      elim (Bool-cases (is_provider_availability_error e)) [
        | inl yes' ↦
            let (answers, course, records) = rest (some e) (failed_state s q u c e) in
            rw yes' (
              answers ++ answer c (some e) ∷ [],
              unavailable a g yes' course,
              failure-Records c s q u e answers (loop cs (some e) (failed_state s q u c e)) records,
            )
        | inr no' ↦ rw no' ([], broken a g no', λ history h. h)
      ]

  permit_course :
      (c : ProviderCandidate) (cs : List ProviderCandidate) (last : Option AppError) (s : State)
      (got : AppResult Bool × R)
      → acquired c s.redis ≡ got
      → ((last : Option AppError) (s : State) → HasCourse cs last s (loop cs last s))
      → HasCourse (c ∷ cs) last s (
          after_permit client show_uuid scan_with_provider chain_id now c.provider s last
            (loop cs)
            got)
  unfolding after_permit
  permit_course c cs last s (err e, q) a rest = ([], uncounted a, λ history h. h)
  permit_course c cs last s (ok false, q) a rest =
      let (answers, course, records) = rest last (record s { redis = q }) in
      (answers, refused a course, records)
  permit_course c cs last s (ok true, q) a rest =
      scan_course c cs last s q (scan_with_provider c.provider s.tables) a refl rest

  pub try_candidates-HasCourse :
      (cs : List ProviderCandidate) (last : Option AppError) (s : State)
      → HasCourse cs last s (loop cs last s)
  unfolding try_candidates
  try_candidates-HasCourse [] last s = ([], exhausted, λ history h. h)
  try_candidates-HasCourse (c ∷ cs) last s =
      permit_course c cs last s (acquired c s.redis) refl (try_candidates-HasCourse cs)

  -- A scan without candidates ends as one whose candidates are used up.
  pub scan_from-HasCourse :
      (cs : List ProviderCandidate) (s : State)
      → HasCourse cs none s (scan_from client show_uuid scan_with_provider chain_id now s cs)
  unfolding scan_from
  scan_from-HasCourse [] s =
      ([], unfold provider_attempts_exhausted_error in exhausted, λ history h. h)
  scan_from-HasCourse (c ∷ cs) s = try_candidates-HasCourse (c ∷ cs) none s
