-- ===== src/Storage/Outbox.antt =====
-- The notification outbox of backend/crates/storage/src/repositories.rs: its statements on the table
-- notification_outbox, and the transaction that records an event with its outbox row.
--
-- `clock` is NOW(); `now` is the time that the caller passes. A claim answers its rows in the order
-- of its subquery.
pub mod Invariant
pub mod Updates
pub mod Events
pub mod Retried
pub mod Retry
use mathlib.Core.Option
use coin_listener.Prelude.{
  ℕ, zero, suc, ◌+◌, Bool, true, false, ◌&&◌, ◌||◌, List, [], ◌∷◌, ◌++◌, map, Option, none, some,
  if◌then◌else◌, ltb, leb, ◌==◌, any, filter,
}
use coin_listener.Prelude.Text.{Text, codes}
use coin_listener.Core.Error.{AppError, AppResult, ok, err, not_found, validation}
use coin_listener.Core.Clock.{Time}
use coin_listener.Core.Models.{Uuid, NotificationOutboxItem, OutboxStatus}
use coin_listener.Storage.Sql.{update_where, rows_affected}

abbrev pub is_processing : OutboxStatus → Bool
is_processing OutboxStatus.processing = true
is_processing _ = false

-- status IN ('pending', 'retryable')
abbrev pub is_waiting : OutboxStatus → Bool
is_waiting OutboxStatus.pending = true
is_waiting OutboxStatus.retryable = true
is_waiting _ = false

-- INSERT_NOTIFICATION_OUTBOX_FOR_EVENT_QUERY, with the id that the row gets and the defaults of its
-- other columns.
unfoldable pub new_outbox_item : Uuid → Time → Uuid → Uuid → NotificationOutboxItem
new_outbox_item id clock tenant_id event_id = record {
  id = id;
  tenant_id = tenant_id;
  event_id = event_id;
  status = OutboxStatus.pending;
  attempt_count = 0;
  next_attempt_at = clock;
  locked_at = none;
  locked_by = none;
  last_error = none;
  delivered_at = none;
  created_at = clock;
  updated_at = clock;
}

abbrev pub is_of_event : Uuid → NotificationOutboxItem → Bool
is_of_event event_id i = i.event_id == event_id

unfoldable pub insert_notification_outbox_for_event :
    Uuid → Time → Uuid → Uuid → List NotificationOutboxItem → List NotificationOutboxItem
unfolding new_outbox_item
insert_notification_outbox_for_event id clock tenant_id event_id items =
    if any (is_of_event event_id) items
    then items
    else items ++ new_outbox_item id clock tenant_id event_id ∷ []

-- CLAIM_DUE_NOTIFICATION_OUTBOX_QUERY
abbrev pub is_due : Time → NotificationOutboxItem → Bool
is_due now i = is_waiting i.status && leb i.next_attempt_at now

abbrev pub precedes : NotificationOutboxItem → NotificationOutboxItem → Bool
precedes a b =
    ltb a.next_attempt_at b.next_attempt_at
    || (a.next_attempt_at == b.next_attempt_at && ltb a.created_at b.created_at)

unfoldable pub insert_by_due :
    NotificationOutboxItem → List NotificationOutboxItem → List NotificationOutboxItem
insert_by_due a [] = a ∷ []
insert_by_due a (b ∷ bs) =
    let rest = insert_by_due a bs in if precedes b a then b ∷ rest else a ∷ b ∷ bs

unfoldable pub order_by_due : List NotificationOutboxItem → List NotificationOutboxItem
unfolding insert_by_due
order_by_due [] = []
order_by_due (a ∷ s) = insert_by_due a (order_by_due s)

unfoldable pub limit_rows : ℕ → List NotificationOutboxItem → List NotificationOutboxItem
limit_rows zero items = []
limit_rows (suc n) [] = []
limit_rows (suc n) (i ∷ items) = i ∷ limit_rows n items

unfoldable pub due_rows : Time → ℕ → List NotificationOutboxItem → List NotificationOutboxItem
unfolding order_by_due limit_rows
due_rows now limit items = limit_rows limit (order_by_due (filter (is_due now) items))

unfoldable pub claimed_item : Time → Time → Text → NotificationOutboxItem → NotificationOutboxItem
claimed_item clock now worker_id i = record i {
  status = OutboxStatus.processing;
  locked_at = some now;
  locked_by = some worker_id;
  attempt_count = i.attempt_count + 1;
  updated_at = clock;
}

abbrev pub is_one_of : List NotificationOutboxItem → NotificationOutboxItem → Bool
is_one_of due i = any (λ (d : NotificationOutboxItem). d.id == i.id) due

unfoldable pub claim_due_notification_outbox :
    Time
    → Time
    → Text
    → ℕ
    → List NotificationOutboxItem
    → List NotificationOutboxItem × List NotificationOutboxItem
unfolding due_rows claimed_item
claim_due_notification_outbox clock now worker_id limit items =
    let due = due_rows now limit items in
    let claimed = claimed_item clock now worker_id in
    (map claimed due, update_where (is_one_of due) claimed items)

-- The three MARK statements take the row of the id while it is processing.
abbrev pub is_claimed : Uuid → NotificationOutboxItem → Bool
is_claimed id i = i.id == id && is_processing i.status

unfoldable pub ensure_notification_outbox_updated : ℕ → AppResult (Unit {0})
ensure_notification_outbox_updated rows =
    if rows == 0 then err (not_found (codes "processing notification outbox item")) else ok tt

unfoldable pub finish_where :
    Uuid
    → (NotificationOutboxItem → NotificationOutboxItem)
    → List NotificationOutboxItem
    → AppResult (Unit {0}) × List NotificationOutboxItem
unfolding ensure_notification_outbox_updated
finish_where id set items = (
  ensure_notification_outbox_updated (rows_affected (is_claimed id) items),
  update_where (is_claimed id) set items,
)

unfoldable pub delivered_item : Time → Time → NotificationOutboxItem → NotificationOutboxItem
delivered_item clock now i = record i {
  status = OutboxStatus.delivered;
  delivered_at = some now;
  locked_at = none;
  locked_by = none;
  last_error = none;
  updated_at = clock;
}

unfoldable pub mark_notification_outbox_delivered :
    Time
    → Uuid
    → Time
    → List NotificationOutboxItem
    → AppResult (Unit {0}) × List NotificationOutboxItem
unfolding delivered_item
mark_notification_outbox_delivered clock id now items =
    finish_where id (delivered_item clock now) items

unfoldable pub retryable_item : Time → Time → Text → NotificationOutboxItem → NotificationOutboxItem
retryable_item clock next_attempt_at last_error i = record i {
  status = OutboxStatus.retryable;
  next_attempt_at = next_attempt_at;
  locked_at = none;
  locked_by = none;
  last_error = some last_error;
  updated_at = clock;
}

unfoldable pub mark_notification_outbox_retryable :
    Time
    → Uuid
    → Time
    → Text
    → List NotificationOutboxItem
    → AppResult (Unit {0}) × List NotificationOutboxItem
unfolding retryable_item
mark_notification_outbox_retryable clock id next_attempt_at last_error items =
    finish_where id (retryable_item clock next_attempt_at last_error) items

unfoldable pub failed_item : Time → Text → NotificationOutboxItem → NotificationOutboxItem
failed_item clock last_error i = record i {
  status = OutboxStatus.failed;
  locked_at = none;
  locked_by = none;
  last_error = some last_error;
  updated_at = clock;
}

unfoldable pub mark_notification_outbox_failed :
    Time
    → Uuid
    → Text
    → List NotificationOutboxItem
    → AppResult (Unit {0}) × List NotificationOutboxItem
unfolding failed_item
mark_notification_outbox_failed clock id last_error items =
    finish_where id (failed_item clock last_error) items

-- RELEASE_STALE_NOTIFICATION_OUTBOX_QUERY; `locked_at < $1` is false of NULL.
abbrev pub earlier_than : Option Time → Time → Bool
earlier_than none t = false
earlier_than (some l) t = ltb l t

abbrev pub is_stale : Time → NotificationOutboxItem → Bool
is_stale stale_before i = is_processing i.status && earlier_than i.locked_at stale_before

unfoldable pub released_item : Time → Time → NotificationOutboxItem → NotificationOutboxItem
released_item clock next_attempt_at i = record i {
  status = OutboxStatus.retryable;
  next_attempt_at = next_attempt_at;
  locked_at = none;
  locked_by = none;
  updated_at = clock;
}

unfoldable pub release_stale_notification_outbox :
    Time → Time → Time → List NotificationOutboxItem → ℕ × List NotificationOutboxItem
unfolding released_item
release_stale_notification_outbox clock stale_before next_attempt_at items = (
  rows_affected (is_stale stale_before) items,
  update_where (is_stale stale_before) (released_item clock next_attempt_at) items,
)

-- MANUAL_RETRY_NOTIFICATION_OUTBOX_QUERY, after the check of the status that the row has. The
-- statement finds the row that the check found, so that it does not miss.
unfoldable pub notification_outbox_status_allows_manual_retry : OutboxStatus → Bool
notification_outbox_status_allows_manual_retry OutboxStatus.failed = true
notification_outbox_status_allows_manual_retry OutboxStatus.retryable = true
notification_outbox_status_allows_manual_retry _ = false

abbrev pub is_row_of : Uuid → Uuid → NotificationOutboxItem → Bool
is_row_of tenant_id id i = i.id == id && i.tenant_id == tenant_id

unfoldable pub retried_item : Time → Time → NotificationOutboxItem → NotificationOutboxItem
retried_item clock now i = record i {
  status = OutboxStatus.retryable;
  next_attempt_at = now;
  locked_at = none;
  locked_by = none;
  last_error = none;
  updated_at = clock;
}

abbrev pub manual_retry_validation_error : AppError
manual_retry_validation_error =
    validation (codes "only failed or retryable notification outbox rows can be retried")

abbrev pub allows_retry_of : Uuid → Uuid → NotificationOutboxItem → Bool
allows_retry_of tenant_id id i =
    is_row_of tenant_id id i && notification_outbox_status_allows_manual_retry i.status

unfoldable pub first_item :
    (NotificationOutboxItem → Bool) → List NotificationOutboxItem → Option NotificationOutboxItem
first_item test [] = none
first_item test (i ∷ items) = let rest = first_item test items in if test i then some i else rest

-- The SELECT of the status, the UPDATE and, when that takes no row, a second SELECT are statements of
-- their own: `before_update` and `before_end` are what other statements make of the table in between.
unfoldable pub retry_notification_outbox_update_miss_error : Option OutboxStatus → AppError
retry_notification_outbox_update_miss_error (some status) = manual_retry_validation_error
retry_notification_outbox_update_miss_error none = not_found (codes "notification outbox")

abbrev pub status_of : Option NotificationOutboxItem → Option OutboxStatus
status_of none = none
status_of (some i) = some i.status

module _ (clock : Time) (tenant_id id : Uuid) (now : Time)
    (before_update before_end : List NotificationOutboxItem → List NotificationOutboxItem) where
  -- After the UPDATE, which took the row or none.
  unfoldable pub after_update :
      List NotificationOutboxItem
      → Option NotificationOutboxItem
      → AppResult NotificationOutboxItem × List NotificationOutboxItem
  after_update items (some i) = (
    ok (retried_item clock now i),
    update_where (allows_retry_of tenant_id id) (retried_item clock now) items,
  )
  after_update items none = (
    err (
        retry_notification_outbox_update_miss_error
          (status_of (first_item (is_row_of tenant_id id) (before_end items)))),
    before_end items,
  )

  unfoldable pub after_status :
      List NotificationOutboxItem
      → Option OutboxStatus
      → AppResult NotificationOutboxItem × List NotificationOutboxItem
  after_status items none = (err (not_found (codes "notification outbox")), items)
  after_status items (some status) =
      let found = before_update items in
      if notification_outbox_status_allows_manual_retry status
      then after_update found (first_item (allows_retry_of tenant_id id) found)
      else (err manual_retry_validation_error, items)

  unfoldable pub retry_notification_outbox :
      List NotificationOutboxItem → AppResult NotificationOutboxItem × List NotificationOutboxItem
  retry_notification_outbox items =
      after_status items (status_of (first_item (is_row_of tenant_id id) items))
