-- ===== src/Tests/Deliveries.antt =====
-- A delivery that is sent once.
use coin_listener.Prelude.{◌≡◌, refl, List, [], ◌∷◌, none, some, true, inr, head, tail}
use coin_listener.Prelude.Text.{codes, text_eq}
use coin_listener.Core.Error.{ok}
use coin_listener.Core.Models.{Uuid, NotificationDelivery, DeliveryStatus}
use coin_listener.Storage.Deliveries
use coin_listener.Storage.Deliveries.{DeliveryKey, is_delivery_of, delivery_of, already_complete}
use coin_listener.Storage.Deliveries.Attempts.{HasUniqueIds, start, then_step, fails}
use coin_listener.Storage.Deliveries.Once

-- A delivery that was sent in its second attempt.
abbrev delivery_key : DeliveryKey
delivery_key = record {
  tenant_id = 1;
  event_id = 11;
  rule_id = 31;
  channel_id = 51;
  idempotency_key = codes "event:11";
}

abbrev sent : NotificationDelivery
sent = record {
  id = 61;
  tenant_id = 1;
  event_id = 11;
  rule_id = some 31;
  channel_id = some 51;
  status = DeliveryStatus.sent;
  attempt_count = 2;
  last_error = none;
  sent_at = some 900;
  created_at = 800;
  channel_type = some (codes "webhook");
  idempotency_key = some (codes "event:11");
  provider_message_id = none;
  provider_status_code = none;
  provider_response = none;
}

sent-HasUniqueIds : HasUniqueIds (sent ∷ [])
sent-HasUniqueIds d e head head h = refl
sent-HasUniqueIds d e head (tail n) h = elim n [ ]
sent-HasUniqueIds d e (tail m) n h = elim m [ ]

sent_row : delivery_of delivery_key (sent ∷ []) ≡ some sent
unfolding delivery_of is_delivery_of text_eq
sent_row = refl

-- A late failure mark of the second attempt, and then a third attempt.
abbrev after_failure : List NotificationDelivery
after_failure =
    (Deliveries.mark_external_notification_delivery_failed 1 61 2 (codes "timeout") none none
      (sent ∷ [])).1

begin_external_notification_delivery-once_example :
    (delivery_id : Uuid) × (Deliveries.begin_external_notification_delivery 62 1000 true
        delivery_key
        (codes "webhook")
        3
        after_failure
      ≡ (ok (already_complete delivery_id), after_failure))
begin_external_notification_delivery-once_example =
    Once.begin_external_notification_delivery-once delivery_key sent (sent ∷ []) after_failure 62
      1000 true (codes "webhook") 3 sent-HasUniqueIds sent_row
      (then_step start (fails 1 61 2 (codes "timeout") none none)) (inr refl)
