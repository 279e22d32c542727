-- ===== src/Storage/Outbox/Retried.antt =====
-- The rows that a manual retry may take, and what it makes of them.
use coin_listener.Prelude.{
  ◌≡◌, ◌⊎◌, refl, Bool, true, false, List, [], ◌∷◌, Option, none, some, arith, Bool-cases, inl, inr,
  IsIn, head, tail,
}
use mathlib.Core.Bool.{false≢true}
use coin_listener.Core.Clock.{Time}
use coin_listener.Core.Models.{Uuid, NotificationOutboxItem, OutboxStatus}
use coin_listener.Storage.Sql.{update_where}
use coin_listener.Storage.Outbox
use coin_listener.Storage.Outbox.{first_item}
use coin_listener.Storage.Outbox.Invariant.{IsItem, IsOutbox, update-IsOutbox}

-- The first row that meets a test meets it; without one, no row does.
abbrev pub IsFirst :
    (NotificationOutboxItem → Bool)
    → List NotificationOutboxItem
    → Option NotificationOutboxItem
    → Type 0
IsFirst test items none = (j : NotificationOutboxItem) → IsIn j items → test j ≡ false
IsFirst test items (some j) = IsIn j items × (test j ≡ true)

pub first_item-IsFirst :
    (test : NotificationOutboxItem → Bool) (items : List NotificationOutboxItem)
    → IsFirst test items (first_item test items)
unfolding first_item
first_item-IsFirst test [] = λ j m. elim m [ ]
first_item-IsFirst test (i ∷ items) = elim (Bool-cases (test i)) [
  | inl yes' ↦ rw yes' (head, yes')
  | inr no' ↦ rw no' (later no' (first_item test items) (first_item-IsFirst test items))
]
  where
    all_rows :
        test i ≡ false
        → IsFirst test items none
        → (j : NotificationOutboxItem) → IsIn j (i ∷ items)
        → test j ≡ false
    all_rows no' h j head = no'
    all_rows no' h j (tail m) = h j m

    later :
        test i ≡ false
        → (o : Option NotificationOutboxItem) → IsFirst test items o
        → IsFirst test (i ∷ items) o
    later no' none h = all_rows no' h
    later no' (some k) (m, t) = (tail m, t)

-- The row of the tenant, and whether it may be retried.
abbrev pub IsRow : Uuid → Uuid → NotificationOutboxItem → Type 0
IsRow tenant id i = (i.id ≡ id) × (i.tenant_id ≡ tenant)

abbrev pub IsRetryable : NotificationOutboxItem → Type 0
IsRetryable i = (i.status ≡ OutboxStatus.failed) ⊎ (i.status ≡ OutboxStatus.retryable)

-- The row `i` made due at `now`, with its error cleared.
pub record IsRetryOf (now : Time) (i k : NotificationOutboxItem) : Type 0 where
  pub id : k.id ≡ i.id
  pub event : k.event_id ≡ i.event_id
  pub attempts : k.attempt_count ≡ i.attempt_count
  pub status : k.status ≡ OutboxStatus.retryable
  pub due : k.next_attempt_at ≡ now
  pub error : k.last_error ≡ none
  pub lock : k.locked_by ≡ none

pub IsRow-iff :
    (tenant id : Uuid) (i : NotificationOutboxItem)
    → ((Outbox.is_row_of tenant id i ≡ true) → IsRow tenant id i)
      × (IsRow tenant id i → Outbox.is_row_of tenant id i ≡ true)
IsRow-iff tenant id i = (λ h. (ground arith, ground arith), λ (e, f). ground arith)

pub allowed_iff :
    (s : OutboxStatus)
    → (Outbox.notification_outbox_status_allows_manual_retry s ≡ true
        → (s ≡ OutboxStatus.failed) ⊎ (s ≡ OutboxStatus.retryable))
      × ((s ≡ OutboxStatus.failed) ⊎ (s ≡ OutboxStatus.retryable)
          → Outbox.notification_outbox_status_allows_manual_retry s ≡ true)
unfolding Outbox.notification_outbox_status_allows_manual_retry
allowed_iff s = (of_test s, λ h. elim h [ inl e ↦ rw e refl | inr e ↦ rw e refl ])
  where
    of_test :
        (s : OutboxStatus)
        → Outbox.notification_outbox_status_allows_manual_retry s ≡ true
        → (s ≡ OutboxStatus.failed) ⊎ (s ≡ OutboxStatus.retryable)
    of_test OutboxStatus.failed h = inl refl
    of_test OutboxStatus.retryable h = inr refl
    of_test OutboxStatus.pending h = absurd (false≢true h)
    of_test OutboxStatus.processing h = absurd (false≢true h)
    of_test OutboxStatus.delivered h = absurd (false≢true h)

module _ (tenant id : Uuid) where
  pub allows_iff :
      (i : NotificationOutboxItem)
      → (Outbox.allows_retry_of tenant id i ≡ true → IsRow tenant id i × IsRetryable i)
        × (IsRow tenant id i → IsRetryable i → Outbox.allows_retry_of tenant id i ≡ true)
  allows_iff i = (
    λ h. ((IsRow-iff tenant id i).0 (ground arith), (allowed_iff i.status).0 (ground arith)),
    λ r t.
        let r' = (IsRow-iff tenant id i).1 r in let t' = (allowed_iff i.status).1 t in ground arith,
  )

pub retried-IsRetryOf :
    (clock now : Time) (i : NotificationOutboxItem)
    → IsRetryOf now i (Outbox.retried_item clock now i)
unfolding Outbox.retried_item
retried-IsRetryOf clock now i = record {
  id = refl;
  event = refl;
  attempts = refl;
  status = refl;
  due = refl;
  error = refl;
  lock = refl;
}

module _ (clock : Time) (tenant id : Uuid) (now : Time) where
  pub retried-IsOutbox :
      (items : List NotificationOutboxItem)
      → IsOutbox items
      → IsOutbox
          (update_where (Outbox.allows_retry_of tenant id) (Outbox.retried_item clock now) items)
  unfolding Outbox.retried_item
  retried-IsOutbox items h =
      update-IsOutbox (Outbox.allows_retry_of tenant id) (Outbox.retried_item clock now) items
        (λ j n r t. retried-IsItem j r t) (λ j. refl) (λ j. refl) h
    where
      retried-IsItem :
          (j : NotificationOutboxItem)
          → IsItem j
          → Outbox.allows_retry_of tenant id j ≡ true
          → IsItem (Outbox.retried_item clock now j)
      retried-IsItem j r t =
          unfold Outbox.retried_item Outbox.notification_outbox_status_allows_manual_retry in
          ground arith
