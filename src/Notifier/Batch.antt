-- ===== src/Notifier/Batch.antt =====
-- `process_notification_outbox_batch` of backend/crates/notifier/src/lib.rs: one round of the
-- dispatcher. What the processing of an item answers, and does to the deliveries `D`, is a
-- parameter; `clock` is NOW().
pub mod Finish
pub mod Round
pub mod Delays
use coin_listener.Prelude.{
  ℕ, zero, suc, ◌+◌, ◌-◌, Bool, true, false, List, [], ◌∷◌, map, Option, none, some, if◌then◌else◌,
  ltb, leb, length,
}
use coin_listener.Prelude.Text.{Text}
use coin_listener.Core.Error.{◌>>=◌, AppError, AppResult, ok, err, error_text}
use coin_listener.Core.Clock.{Time, seconds}
use coin_listener.Core.Machine.{u16_max}
use coin_listener.Core.Models.{Uuid, NotificationOutboxItem, NotifyEventTask}
use coin_listener.Storage.Outbox

pub record NotificationOutboxDispatcherConfig : Type 0 where
  pub batch_size : ℕ
  pub max_attempts : ℕ
  pub stale_lock_seconds : ℕ

unfoldable pub notification_outbox_next_attempt_at : Time → ℕ → Time
notification_outbox_next_attempt_at now zero = now + seconds 30
notification_outbox_next_attempt_at now (suc zero) = now + seconds 30
notification_outbox_next_attempt_at now (suc (suc zero)) = now + seconds 60
notification_outbox_next_attempt_at now (suc (suc (suc zero))) = now + seconds 300
notification_outbox_next_attempt_at now (suc (suc (suc (suc zero)))) = now + seconds 900
notification_outbox_next_attempt_at now _ = now + seconds 3600

unfoldable pub notification_outbox_should_fail : ℕ → ℕ → Bool
notification_outbox_should_fail attempt_count max_attempts = leb max_attempts attempt_count

unfoldable pub notification_outbox_task_attempt : ℕ → ℕ
notification_outbox_task_attempt attempt_count =
    if leb attempt_count 0 then 0 else if ltb u16_max attempt_count then u16_max else attempt_count

unfoldable pub notify_task_from_outbox_item : NotificationOutboxItem → NotifyEventTask
unfolding notification_outbox_task_attempt
notify_task_from_outbox_item item = record {
  task_id = item.id;
  event_id = item.event_id;
  tenant_id = item.tenant_id;
  attempt = notification_outbox_task_attempt item.attempt_count;
  enqueued_at = item.created_at;
}

-- What the loop does with an item's result.
unfoldable pub finish_item :
    Time
    → ℕ
    → Time
    → NotificationOutboxItem
    → AppResult ℕ
    → List NotificationOutboxItem
    → AppResult (Unit {0}) × List NotificationOutboxItem
finish_item clock max_attempts now item (ok deliveries) items =
    Outbox.mark_notification_outbox_delivered clock item.id now items
finish_item clock max_attempts now item (err error) items =
    if notification_outbox_should_fail item.attempt_count max_attempts
    then Outbox.mark_notification_outbox_failed clock item.id (error_text error) items
    else Outbox.mark_notification_outbox_retryable clock item.id
        (notification_outbox_next_attempt_at now item.attempt_count) (error_text error) items

-- An error of a MARK statement ends the loop.
abbrev pub unless_lost {ℓ} :
    {S : Type ℓ} → AppResult (Unit {0}) → S → AppResult (Unit {0}) × S → AppResult (Unit {0}) × S
unless_lost (ok u) state next = next
unless_lost (err e) state next = (err e, state)

module _ {ℓ} {D : Type ℓ} (process_notify_task : NotifyEventTask → Time → D → AppResult ℕ × D)
    (clock now : Time) where
  unfoldable pub process_items :
      ℕ
      → List NotificationOutboxItem
      → D × List NotificationOutboxItem
      → AppResult (Unit {0}) × (D × List NotificationOutboxItem)
  process_items max_attempts [] state = (ok tt, state)
  process_items max_attempts (i ∷ claimed) (d, items) =
      let (result, d') = process_notify_task (notify_task_from_outbox_item i) now d in
      let (marked, items') = finish_item clock max_attempts now i result items in
      unless_lost marked (d', items') (process_items max_attempts claimed (d', items'))

  unfoldable pub process_notification_outbox_batch :
      Text
      → NotificationOutboxDispatcherConfig
      → D × List NotificationOutboxItem
      → AppResult ℕ × (D × List NotificationOutboxItem)
  unfolding process_items
  process_notification_outbox_batch worker_id config (d, items) =
      let stale_before = now - seconds config.stale_lock_seconds in
      let released = (Outbox.release_stale_notification_outbox clock stale_before now items).1 in
      let (claimed, taken) =
        Outbox.claim_due_notification_outbox clock now worker_id config.batch_size released in
      let (r, state) = process_items config.max_attempts claimed (d, taken) in
      (r >>= λ u. ok (length claimed), state)
