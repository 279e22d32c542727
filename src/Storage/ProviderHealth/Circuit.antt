-- ===== src/Storage/ProviderHealth/Circuit.antt =====
-- The circuit breaker against the history of the providers' answers: what the rows of
-- provider_health say after any run of answers that the scans recorded.
use coin_listener.Prelude.{
  ℕ, suc, ◌+◌, ◌≡◌, refl, true, false, List, [], ◌∷◌, Option, none, some, if◌then◌else◌, leb, ◌==◌,
  arith, Bool-cases, inl, inr, ==_iff, sym,
}
use coin_listener.Core.Clock.{Time, seconds}
use coin_listener.Core.Error.{AppError, error_text}
use coin_listener.Prelude.Text.{Text}
use coin_listener.Core.Models.{Uuid}
use coin_listener.Storage.Sql.Upsert.{find-upsert, find-upsert_other, upserted}
use coin_listener.Storage.Redaction.{sanitize_provider_error}
use coin_listener.Storage.ProviderHealth.{
  ProviderHealthRow, health_of, is_health_of, record_provider_success, record_provider_failure,
  first_success, first_failure, served_row, failed_row,
}

-- One recorded answer of a provider: `failure` is none when it served the scan.
pub record Answer : Type 0 where
  pub provider_id : Uuid
  pub answered_at : Time
  pub failure : Option AppError

abbrev record_answer_of :
    Option AppError → Uuid → Time → List ProviderHealthRow → List ProviderHealthRow
record_answer_of none provider_id now rows = record_provider_success provider_id now rows
record_answer_of (some e) provider_id now rows = record_provider_failure provider_id now e rows

-- The rows after a history, whose first answer is the newest.
unfoldable pub health_after : List Answer → List ProviderHealthRow
health_after [] = []
health_after (a ∷ older) =
    record_answer_of a.failure a.provider_id a.answered_at (health_after older)

-- The answers of the provider since its last success: all of them failures.
unfoldable pub streak : Uuid → List Answer → ℕ
streak provider_id [] = 0
streak provider_id (a ∷ older) =
    let before = streak provider_id older in
    if a.provider_id == provider_id
    then elim a.failure [ none ↦ 0 | some e ↦ suc before ]
    else before

-- When the provider answered last.
unfoldable pub last_answer_at : Uuid → List Answer → Time
last_answer_at provider_id [] = 0
last_answer_at provider_id (a ∷ older) =
    let before = last_answer_at provider_id older in
    if a.provider_id == provider_id then a.answered_at else before

-- From the third failure in a row the provider is out for 300 seconds from the latest of them.
unfoldable pub closed_from : Uuid → List Answer → Option Time
unfolding streak last_answer_at
closed_from provider_id history =
    if leb 3 (streak provider_id history)
    then some (last_answer_at provider_id history + seconds 300)
    else none

abbrev pub failures_of : Option ProviderHealthRow → ℕ
failures_of none = 0
failures_of (some h) = h.consecutive_failures

abbrev pub disabled_of : Option ProviderHealthRow → Option Time
disabled_of none = none
disabled_of (some h) = h.disabled_until

-- The facts of the history that the row of a provider keeps.
abbrev Keeps : Uuid → List Answer → Option ProviderHealthRow → Type 0
Keeps id history row =
    (failures_of row ≡ streak id history) × (disabled_of row ≡ closed_from id history)

is_health_of-ne :
    (id other : Uuid)
    → (id == other) ≡ false
    → (r : ProviderHealthRow) → is_health_of id r ≡ true
    → is_health_of other r ≡ false
is_health_of-ne id other h r e = ground arith

answer_other :
    (failure : Option AppError) (id other : Uuid) (at_time : Time) (rows : List ProviderHealthRow)
    → (id == other) ≡ false
    → health_of other (record_answer_of failure id at_time rows) ≡ health_of other rows
unfolding health_of record_provider_success record_provider_failure failed_row
answer_other none id other t rows h =
    find-upsert_other (is_health_of id) (is_health_of other) (first_success id t) (served_row t)
      rows (λ r. refl) (is_health_of-ne id other h) (ground arith)
answer_other (some e) id other t rows h =
    let text = sanitize_provider_error (error_text e) in
    find-upsert_other (is_health_of id) (is_health_of other) (first_failure id t text)
      (failed_row t text) rows (λ r. refl) (is_health_of-ne id other h) (ground arith)

success_self :
    (id : Uuid) (t : Time) (rows : List ProviderHealthRow)
    → health_of id (record_provider_success id t rows)
      ≡ some (upserted (first_success id t) (served_row t) (health_of id rows))
unfolding health_of record_provider_success
success_self id t rows =
    find-upsert (is_health_of id) (first_success id t) (served_row t) rows (λ r. refl)
      (ground arith)

failure_self :
    (id : Uuid) (t : Time) (e : AppError) (rows : List ProviderHealthRow)
    → let text = sanitize_provider_error (error_text e) in
      health_of id (record_provider_failure id t e rows)
      ≡ some (upserted (first_failure id t text) (failed_row t text) (health_of id rows))
unfolding health_of record_provider_failure failed_row
failure_self id t e rows =
    let text = sanitize_provider_error (error_text e) in
    find-upsert (is_health_of id) (first_failure id t text) (failed_row t text) rows (λ r. refl)
      (ground arith)

success-Keeps :
    (id : Uuid) (t : Time) (older : List Answer) (row : Option ProviderHealthRow)
    → Keeps id
        (record { provider_id = id; answered_at = t; failure = none } ∷ older)
        (some (upserted (first_success id t) (served_row t) row))
unfolding streak closed_from
success-Keeps id t older none = ground arith
success-Keeps id t older (some h) = ground arith

failure-Keeps :
    (id : Uuid) (t : Time) (e : AppError) (text : Text) (older : List Answer)
    (row : Option ProviderHealthRow)
    → Keeps id older row
    → Keeps id
        (record { provider_id = id; answered_at = t; failure = some e } ∷ older)
        (some (upserted (first_failure id t text) (failed_row t text) row))
unfolding streak closed_from failed_row last_answer_at
failure-Keeps id t e text older none k = ground arith
failure-Keeps id t e text older (some h) k = ground arith

other-Keeps :
    (id other : Uuid) (t : Time) (failure : Option AppError) (older : List Answer)
    (row : Option ProviderHealthRow)
    → (id == other) ≡ false
    → Keeps other older row
    → Keeps other (record { provider_id = id; answered_at = t; failure = failure } ∷ older) row
unfolding streak closed_from last_answer_at
other-Keeps id other t failure older row h k = rw h k

answer-Keeps :
    (id other : Uuid) (t : Time) (failure : Option AppError) (older : List Answer)
    (rows : List ProviderHealthRow)
    → Keeps other older (health_of other rows)
    → Keeps other
        (record { provider_id = id; answered_at = t; failure = failure } ∷ older)
        (health_of other (record_answer_of failure id t rows))
answer-Keeps id other t failure older rows k = elim (Bool-cases (id == other)) [
  | inr no' ↦
      rw (answer_other failure id other t rows no')
        (other-Keeps id other t failure older (health_of other rows) no' k)
  | inl yes' ↦ own ((==_iff id other).0 yes') failure k
]
  where
    own :
        {other : Uuid}
        → id ≡ other
        → (failure : Option AppError) → Keeps other older (health_of other rows)
        → Keeps other
            (record { provider_id = id; answered_at = t; failure = failure } ∷ older)
            (health_of other (record_answer_of failure id t rows))
    own e none k = rw (sym e, success_self id t rows) (success-Keeps id t older (health_of id rows))
    own e (some f) k =
        rw (sym e, failure_self id t f rows)
          (failure-Keeps id t f (sanitize_provider_error (error_text f)) older (health_of id rows)
            (rw (sym e) at k))

-- After any history of answers of any providers, the table says of each provider how many
-- failures it has had since its last success, and that it is disabled exactly from the third such
-- failure on, until 300 seconds after the latest; a success, or no answer yet, enables it.
pub health_after-streak :
    (provider_id : Uuid) (history : List Answer)
    → (failures_of (health_of provider_id (health_after history)) ≡ streak provider_id history)
      × (disabled_of (health_of provider_id (health_after history))
          ≡ closed_from provider_id history)
unfolding health_after health_of streak closed_from
health_after-streak id [] = (refl, refl)
health_after-streak id (a ∷ older) =
    answer-Keeps a.provider_id id a.answered_at a.failure older (health_after older)
      (health_after-streak id older)
