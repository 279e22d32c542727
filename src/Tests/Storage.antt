-- ===== src/Tests/Storage.antt =====
-- Recording events at concrete inputs.
use coin_listener.Prelude.{◌≡◌, refl, [], none, some, ◌∷◌, List, ◌⊎◌}
use coin_listener.Prelude.Text.{codes}
use coin_listener.Storage.Outbox.Events
use coin_listener.Storage.Outbox.Events.{EventTables}
use coin_listener.Storage.Outbox.Events.Once
use coin_listener.Prelude.{arith}
use coin_listener.Core.Error.{AppResult}
use coin_listener.Core.Models.{NotificationOutboxItem, OutboxStatus}
use coin_listener.Storage.Sql.{rows_affected}
use coin_listener.Storage.Outbox
use coin_listener.Storage.Outbox.Invariant.{IsOutbox}
use coin_listener.Storage.Outbox.Retry
use coin_listener.Tests.Data

abbrev no_events : EventTables
no_events = record { events = []; outbox = [] }

insert_event_and_outbox-once_example :
    let after = (Events.insert_event_and_outbox_if_not_exists 11 21 50 Data.draft no_events).1 in
    Events.insert_event_and_outbox_if_not_exists 12 22 70 Data.draft after ≡ (none, after)
insert_event_and_outbox-once_example =
    Once.insert_event_and_outbox-once 11 21 50 Data.draft no_events (codes "0xab") 12 22 70 refl

insert_event_and_outbox-IsNotified_example :
    Once.IsNotified (Events.insert_event_and_outbox_if_not_exists 12 22 70 Data.draft Data.events).1
insert_event_and_outbox-IsNotified_example =
    Once.insert_event_and_outbox-IsNotified 12 22 70 Data.draft Data.events (refl, tt)

abbrev failed_item : NotificationOutboxItem
failed_item = record Data.item {
  status = OutboxStatus.failed;
  attempt_count = 5;
  last_error = some (codes "timeout");
}

failed-IsOutbox : IsOutbox (failed_item ∷ [])
failed-IsOutbox = record {
  rows = (
    record { locked_at = refl; locked_by = refl; delivered = refl; tried = λ h. omega arith },
    tt,
  );
  ids = λ i. unfold rows_affected in ground arith;
  events = λ i. unfold rows_affected in ground arith;
}

-- No other statement runs between those of the retry.
abbrev undisturbed : List NotificationOutboxItem → List NotificationOutboxItem
undisturbed items = items

abbrev retried : AppResult NotificationOutboxItem × List NotificationOutboxItem
retried = Outbox.retry_notification_outbox 300 1 21 200 undisturbed undisturbed (failed_item ∷ [])

retry_notification_outbox-branches_example :
    (Retry.IsMissing 300 1 21 200 undisturbed undisturbed (failed_item ∷ []) retried
      ⊎ Retry.IsRefused 300 1 21 200 undisturbed undisturbed (failed_item ∷ []) retried)
    ⊎ (Retry.IsRetried 300 1 21 200 undisturbed undisturbed (failed_item ∷ []) retried
        ⊎ Retry.IsMissed 300 1 21 200 undisturbed undisturbed (failed_item ∷ []) retried)
retry_notification_outbox-branches_example =
    Retry.retry_notification_outbox-branches 300 1 21 200 undisturbed undisturbed (failed_item ∷ [])
      failed-IsOutbox
