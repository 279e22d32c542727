-- ===== src/Worker/Failover/Fallback.antt =====
-- What a scan that falls back over its providers comes to, and what it says of their health.
use coin_listener.Prelude.{
  ◌≡◌, refl, Bool, true, List, [], ◌∷◌, ◌++◌, Option, none, some, sym, ap, IsIn, head, tail, All,
}
use coin_listener.Prelude.Text.{Text}
use coin_listener.Storage.Sql.{All-append, IsIn-map_of}
use coin_listener.Storage.ProviderHealth.Candidates.{active_rpc_provider_candidates-IsIn}
use coin_listener.Core.Clock.{Time}
use coin_listener.Core.Error.{AppError, AppResult, ok, err}
use coin_listener.Core.Action.{Action}
use coin_listener.Core.Models.{Uuid, Provider, AddressEvent}
use coin_listener.Storage.ProviderHealth.{
  ProviderHealthRow, ProviderCandidate, Redis, active_rpc_provider_candidates,
}
use coin_listener.Storage.ProviderHealth.Circuit.{Answer, health_after}
use coin_listener.Worker.Paging.{is_provider_availability_error}
use coin_listener.Worker.Failover.Course.{
  Course, exhausted, uncounted, refused, unavailable, broken, served, scan_from-HasCourse,
}
use coin_listener.Storage.ProviderHealth.Candidates.{IsActiveRpc, IsClosed}
use coin_listener.Worker.Failover.{FailoverState, scan_address}

module _ {R D : Type 0} (client : Redis R) (show_uuid : Uuid → Text)
    (scan_with_provider : Provider → Action D (List AddressEvent)) (chain_id : Uuid)
    (now : Time) where
  abbrev State : Type 0
  State = FailoverState R D

  abbrev Taken :
      List ProviderCandidate
      → Option AppError
      → R
      → D
      → List Answer
      → AppResult (List AddressEvent)
      → R
      → D
      → Type 0
  Taken = Course client show_uuid scan_with_provider chain_id now

  -- A failure of a kind that lets the scan go on to the next provider.
  abbrev pub IsUnavailable : Answer → Type 0
  IsUnavailable a =
      (e : AppError) × (a.failure ≡ some e) × (is_provider_availability_error e ≡ true)

  -- What the result says of the answers: a scan that returns events has one success, its last answer.
  abbrev pub Accounts : AppResult (List AddressEvent) → List Answer → Type 0
  Accounts (err e) answers = All IsUnavailable answers
  Accounts (ok events) answers =
      (newest : Answer) × (older : List Answer) × (answers ≡ newest ∷ older)
      × (newest.failure ≡ none)
      × All IsUnavailable older

  append_failure :
      (r : AppResult (List AddressEvent)) (answers : List Answer) (a : Answer)
      → IsUnavailable a
      → Accounts r answers
      → Accounts r (answers ++ a ∷ [])
  append_failure (err e) answers a u h = All-append IsUnavailable answers (a ∷ []) h (u, tt)
  append_failure (ok events) answers a u (newest, older, e, s, f) = (
    newest,
    older ++ a ∷ [],
    ap (λ (l : List Answer). l ++ a ∷ []) e,
    s,
    All-append IsUnavailable older (a ∷ []) f (u, tt),
  )

  Course-Accounts :
      {cs : List ProviderCandidate} {last : Option AppError} {r r' : R} {t t' : D}
      {answers : List Answer} {out : AppResult (List AddressEvent)}
      → Taken cs last r t answers out r' t'
      → Accounts out answers
  Course-Accounts exhausted = tt
  Course-Accounts (uncounted a) = tt
  Course-Accounts (refused a course) = Course-Accounts course
  Course-Accounts (unavailable {c = c} {e = e} {answers = answers} {out = out} a g u course) =
      append_failure out answers
        (record { provider_id = c.provider.id; answered_at = now; failure = some e }) (e, refl, u)
        (Course-Accounts course)
  Course-Accounts (broken a g u) = tt
  Course-Accounts (served {c = c} a g) = (
    record { provider_id = c.provider.id; answered_at = now; failure = none },
    [],
    refl,
    refl,
    tt,
  )

  -- Each answer came from a candidate, at this scan's time.
  abbrev IsFrom : List ProviderCandidate → Answer → Type 0
  IsFrom cs a =
      (c : ProviderCandidate) × IsIn c cs × (a.provider_id ≡ c.provider.id) × (a.answered_at ≡ now)

  IsFrom-later :
      (c : ProviderCandidate) (cs : List ProviderCandidate) (answers : List Answer)
      → All (IsFrom cs) answers
      → All (IsFrom (c ∷ cs)) answers
  IsFrom-later c cs [] h = tt
  IsFrom-later c cs (a ∷ answers) ((d, m, e, t), h) =
      ((d, tail m, e, t), IsFrom-later c cs answers h)

  Course-IsFrom :
      {cs : List ProviderCandidate} {last : Option AppError} {r r' : R} {t t' : D}
      {answers : List Answer} {out : AppResult (List AddressEvent)}
      → Taken cs last r t answers out r' t'
      → All (IsFrom cs) answers
  Course-IsFrom exhausted = tt
  Course-IsFrom (uncounted a) = tt
  Course-IsFrom (refused {c = c} {cs = cs} {answers = answers} a course) =
      IsFrom-later c cs answers (Course-IsFrom course)
  Course-IsFrom (unavailable {c = c} {cs = cs} {e = e} {answers = answers} a g u course) =
      All-append (IsFrom (c ∷ cs)) answers
        (record { provider_id = c.provider.id; answered_at = now; failure = some e } ∷ [])
        (IsFrom-later c cs answers (Course-IsFrom course)) ((c, head, refl, refl), tt)
  Course-IsFrom (broken a g u) = tt
  Course-IsFrom (served {c = c} a g) = ((c, head, refl, refl), tt)

  module _ (name_before : Text → Text → Bool) (providers : List Provider) where
    abbrev candidates : List ProviderHealthRow → List ProviderCandidate
    candidates rows = active_rpc_provider_candidates name_before providers rows chain_id now

    abbrev run : State → AppResult (List AddressEvent) × State
    run s = scan_address client show_uuid scan_with_provider chain_id now name_before providers s

    -- A provider that the scan may ask, by the answers of the scans before.
    abbrev pub MayBeAsked : List Answer → Answer → Type 0
    MayBeAsked history a =
        (p : Provider) × IsIn p providers
        × (a.provider_id ≡ p.id)
        × (a.answered_at ≡ now)
        × IsActiveRpc chain_id p
        × IsClosed p.id history now

    may_be_asked :
        (history answers : List Answer)
        → All (IsFrom (candidates (health_after history))) answers
        → All (MayBeAsked history) answers
    may_be_asked history [] h = tt
    may_be_asked history (a ∷ answers) ((c, m, e, t), h) =
        let (n, active, on) =
          (active_rpc_provider_candidates-IsIn name_before providers history chain_id now
              c.provider).0
            (IsIn-map_of (λ (d : ProviderCandidate). d.provider) m) in
        ((c.provider, n, e, t, active, on), may_be_asked history answers h)

    -- A scan takes its candidates in their order, passing over those that have no call left in this
    -- second; it asks the others, each on the tables that the one before left, until one serves it,
    -- one fails in a way that is not for another provider, or the count of calls fails. When its
    -- health rows are those of the answers recorded before, it leaves those of this history with the
    -- new answers: one for each provider that it asked, a success or such a failure that it went on
    -- to the next. Each is of an active RPC provider of the chain whose circuit the history leaves
    -- closed; the answers of a scan that returns events end in one success, those of one that fails
    -- are failures alone.
    pub scan_address-records :
        (s : State) (history : List Answer)
        → s.health ≡ health_after history
        → (answers : List Answer) × Course client show_uuid scan_with_provider chain_id now
            (candidates s.health)
            none
            s.redis
            s.tables
            answers
            (run s).0
            (run s).1.redis
            (run s).1.tables
          × ((run s).1.health ≡ health_after (answers ++ history))
          × All (MayBeAsked history) answers
          × Accounts (run s).0 answers
    unfolding scan_address
    scan_address-records s history h =
        let (answers, course, records) =
          scan_from-HasCourse client show_uuid scan_with_provider chain_id now (candidates s.health)
            s in
        (
          answers,
          course,
          records history h,
          may_be_asked history answers (rw (sym h) (Course-IsFrom course)),
          Course-Accounts course,
        )
