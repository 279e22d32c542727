-- ===== src/Tests/Notifier.antt =====
-- Rules, amounts and a round of the dispatcher at concrete inputs.
use coin_listener.Prelude.{
  ℕ, ◌-◌, ◌≡◌, refl, ◌↔◌, true, false, [], ◌∷◌, some, arith, IsIn, length, ◌+◌,
}
use coin_listener.Prelude.Text.{codes}
use coin_listener.Core.Error.{AppResult, ok, err, database}
use coin_listener.Core.Clock.{Time, seconds}
use coin_listener.Core.Models.{NotificationOutboxItem, NotifyEventTask}
use coin_listener.Storage.Sql.{rows_affected}
use coin_listener.Storage.Outbox
use coin_listener.Storage.Outbox.Invariant.{IsOutbox}
use coin_listener.Notifier.Amounts
use coin_listener.Notifier.Amounts.Numeric
use coin_listener.Notifier.Batch
use coin_listener.Notifier.Batch.{NotificationOutboxDispatcherConfig}
use coin_listener.Notifier.Batch.Round
use coin_listener.Notifier.Rules
use coin_listener.Prelude.{All, map}
use coin_listener.Prelude.Json.{object, end}
use coin_listener.Core.Models.{NotificationChannel}
use coin_listener.Notifier.Channels
use coin_listener.Notifier.Channels.Resolution
use coin_listener.Prelude.{◌≤◌, ◌+◌}
use coin_listener.Storage.ScanJobs.{scan_job_next_attempt_at}
use coin_listener.Notifier.Batch.Delays
use coin_listener.Tests.Data

-- 1500 is at least 0900.
amount_raw_meets_minimum_iff_example :
    (Amounts.amount_raw_meets_minimum (some (codes "1500")) (some (codes "0900")) ≡ true)
    ↔ Numeric.IsAtLeast (some (codes "1500")) (some (codes "0900"))
amount_raw_meets_minimum_iff_example =
    Numeric.amount_raw_meets_minimum_iff (some (codes "1500")) (some (codes "0900"))

notification_rule_matches_event_iff_example :
    (Rules.notification_rule_matches_event Data.rule Data.event ≡ true)
    ↔ Rules.IsMet Data.rule Data.event
notification_rule_matches_event_iff_example =
    Rules.notification_rule_matches_event_iff Data.rule Data.event

-- The processing fails and counts its calls.
abbrev failing : NotifyEventTask → Time → ℕ → AppResult ℕ × ℕ
failing task now calls = (err (database (codes "timeout")), calls + 1)

abbrev config : NotificationOutboxDispatcherConfig
config = record { batch_size = 10; max_attempts = 5; stale_lock_seconds = 300 }

one_item : IsOutbox (Data.item ∷ [])
one_item = record {
  rows = (record { locked_at = refl; locked_by = refl; delivered = refl; tried = λ h. cc }, tt);
  ids = λ i. unfold rows_affected in ground arith;
  events = λ i. unfold rows_affected in ground arith;
}

process_notification_outbox_batch-finishes_example :
    let stale_before = 100 - seconds 300 in
    let released =
      (Outbox.release_stale_notification_outbox 100 stale_before 100 (Data.item ∷ [])).1 in
    let out =
      Batch.process_notification_outbox_batch failing 100 100
        (codes "n")
        config
        (0, Data.item ∷ []) in
    (out.0 ≡ ok (length (Outbox.due_rows 100 10 released)))
    × IsOutbox out.1.1
    × ((j : NotificationOutboxItem)
        → IsIn j out.1.1
        → Outbox.is_processing j.status ≡ true
        → IsIn j (Data.item ∷ []) × (Outbox.is_stale stale_before j ≡ false))
process_notification_outbox_batch-finishes_example =
    Round.process_notification_outbox_batch-finishes failing 100 100 (codes "n") config 0
      (Data.item ∷ []) one_item

abbrev channel : NotificationChannel
channel = record {
  id = 61;
  tenant_id = 1;
  channel_type = codes "webhook";
  name = codes "ops";
  config = object end;
  status = codes "active";
  created_at = 10;
  updated_at = 10;
}

-- An active channel, an inactive one and one that is not there.
resolve_explicit_rule_channels-IsResolution_example :
    let answers =
      Channels.resolve_explicit_rule_channels
        (61 ∷ 62 ∷ 63 ∷ [])
        (channel ∷ (record channel { id = 62 }) ∷ [])
        (channel ∷ []) in
    (map Resolution.channel_of answers ≡ 61 ∷ 62 ∷ 63 ∷ [])
    × All
        (Resolution.IsResolution (channel ∷ (record channel { id = 62 }) ∷ []) (channel ∷ []))
        answers
resolve_explicit_rule_channels-IsResolution_example =
    Resolution.resolve_explicit_rule_channels-IsResolution (61 ∷ 62 ∷ 63 ∷ [])
      (channel ∷ (record channel { id = 62 }) ∷ []) (channel ∷ [])

next_attempt_at_mono_example :
    (Batch.notification_outbox_next_attempt_at 100 2 ≡ scan_job_next_attempt_at 100 2)
    × (100 + seconds 30 ≤ scan_job_next_attempt_at 100 2)
    × (scan_job_next_attempt_at 100 2 ≤ scan_job_next_attempt_at 100 9)
    × (scan_job_next_attempt_at 100 9 ≤ 100 + seconds 3600)
next_attempt_at_mono_example = Delays.next_attempt_at_mono 100 2 9 (omega arith)
