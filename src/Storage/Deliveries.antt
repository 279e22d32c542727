-- ===== src/Storage/Deliveries.antt =====
-- The external deliveries of backend/crates/storage/src/notifications.rs: the transaction that begins
-- an attempt, and the two statements that end one.
--
-- `target` says that the event, the rule and the channel of an INSERT are there, which other tables
-- hold. The SELECT and the conflict of the INSERT are on the key of a delivery; an event has one
-- tenant, which is part of the key here.
pub mod Attempts
pub mod Once
use mathlib.Core.Option
use coin_listener.Prelude.{
  ℕ, Bool, true, false, ◌&&◌, List, [], ◌∷◌, ◌++◌, Option, none, some, if◌then◌else◌, ltb, leb,
  ◌==◌, any, find, not,
}
use coin_listener.Prelude.Int.{ℤ}
use coin_listener.Prelude.Text.{Text, codes, text_eq}
use coin_listener.Core.Clock.{Time}
use coin_listener.Core.Error.{AppError, AppResult, ok, err, not_found}
use coin_listener.Core.Models.{Uuid, NotificationDelivery, DeliveryStatus}
use coin_listener.Storage.Sql.{update_where, rows_affected}

pub data ExternalDeliveryStart : Type 0 where
  already_complete : Uuid → ExternalDeliveryStart
  ready_to_send : Uuid → ExternalDeliveryStart

unfoldable pub external_delivery_start_from_status_and_attempt :
    Uuid → DeliveryStatus → ℕ → ℕ → ExternalDeliveryStart
external_delivery_start_from_status_and_attempt delivery_id DeliveryStatus.sent existing requested =
    already_complete delivery_id
external_delivery_start_from_status_and_attempt delivery_id DeliveryStatus.skipped existing
      requested =
    already_complete delivery_id
external_delivery_start_from_status_and_attempt delivery_id _ existing requested =
    if leb requested existing then already_complete delivery_id else ready_to_send delivery_id

pub record DeliveryKey : Type 0 where
  pub tenant_id : Uuid
  pub event_id : Uuid
  pub rule_id : Uuid
  pub channel_id : Uuid
  pub idempotency_key : Text

abbrev is_uuid : Uuid → Option Uuid → Bool
is_uuid id none = false
is_uuid id (some other) = other == id

abbrev is_text : Text → Option Text → Bool
is_text t none = false
is_text t (some other) = text_eq other t

-- The WHERE clause of SELECT_EXTERNAL_NOTIFICATION_DELIVERY_FOR_UPDATE_QUERY.
unfoldable pub is_delivery_of : DeliveryKey → NotificationDelivery → Bool
is_delivery_of key d =
    d.tenant_id == key.tenant_id
    && d.event_id == key.event_id
    && is_uuid key.rule_id d.rule_id
    && is_uuid key.channel_id d.channel_id
    && is_text key.idempotency_key d.idempotency_key

unfoldable pub delivery_of : DeliveryKey → List NotificationDelivery → Option NotificationDelivery
delivery_of key rows = find (is_delivery_of key) rows

-- The row of INSERT_EXTERNAL_NOTIFICATION_DELIVERY_QUERY, with its id and the time that it gets.
unfoldable pub new_delivery : Uuid → Time → DeliveryKey → Text → ℕ → NotificationDelivery
new_delivery id clock key channel_type attempt_count = record {
  id = id;
  tenant_id = key.tenant_id;
  event_id = key.event_id;
  rule_id = some key.rule_id;
  channel_id = some key.channel_id;
  status = DeliveryStatus.processing;
  attempt_count = attempt_count;
  last_error = none;
  sent_at = none;
  created_at = clock;
  channel_type = some channel_type;
  idempotency_key = some key.idempotency_key;
  provider_message_id = none;
  provider_status_code = none;
  provider_response = none;
}

-- UPDATE_EXTERNAL_NOTIFICATION_DELIVERY_PROCESSING_QUERY
unfoldable pub may_restart : Uuid → Uuid → ℕ → NotificationDelivery → Bool
may_restart delivery_id tenant_id attempt_count d =
    d.id == delivery_id && d.tenant_id == tenant_id && ltb d.attempt_count attempt_count

unfoldable pub restarted : ℕ → NotificationDelivery → NotificationDelivery
restarted attempt_count d = record d {
  status = DeliveryStatus.processing;
  attempt_count = attempt_count;
  last_error = none;
  provider_message_id = none;
  provider_status_code = none;
  provider_response = none;
  sent_at = none;
}

-- The UPDATE of a row that is ready, in the transaction: an error leaves the table as it was.
unfoldable pub restart :
    Uuid
    → Uuid
    → ℕ
    → List NotificationDelivery
    → AppResult ExternalDeliveryStart × List NotificationDelivery
unfolding may_restart restarted
restart delivery_id tenant_id attempt_count rows =
    if rows_affected (may_restart delivery_id tenant_id attempt_count) rows == 0
    then (err (not_found (codes "external notification delivery")), rows)
    else (
      ok (ready_to_send delivery_id),
      update_where (may_restart delivery_id tenant_id attempt_count) (restarted attempt_count) rows,
    )

unfoldable pub start_found :
    Uuid
    → ℕ
    → List NotificationDelivery
    → ExternalDeliveryStart
    → AppResult ExternalDeliveryStart × List NotificationDelivery
unfolding restart
start_found tenant_id attempt_count rows (already_complete id) = (ok (already_complete id), rows)
start_found tenant_id attempt_count rows (ready_to_send id) =
    restart id tenant_id attempt_count rows

unfoldable pub start_existing :
    Uuid
    → ℕ
    → List NotificationDelivery
    → Option NotificationDelivery
    → AppResult ExternalDeliveryStart × List NotificationDelivery
unfolding external_delivery_start_from_status_and_attempt start_found
start_existing tenant_id attempt_count rows none =
    (err (not_found (codes "external notification delivery target")), rows)
start_existing tenant_id attempt_count rows (some d) =
    start_found tenant_id attempt_count rows
      (external_delivery_start_from_status_and_attempt d.id d.status d.attempt_count attempt_count)

unfoldable pub begin_external_notification_delivery :
    Uuid
    → Time
    → Bool
    → DeliveryKey
    → Text
    → ℕ
    → List NotificationDelivery
    → AppResult ExternalDeliveryStart × List NotificationDelivery
unfolding delivery_of new_delivery start_existing
begin_external_notification_delivery id clock target key channel_type attempt_count rows =
    if target && not (any (is_delivery_of key) rows)
    then (ok (ready_to_send id), rows ++ new_delivery id clock key channel_type attempt_count ∷ [])
    else start_existing key.tenant_id attempt_count rows (delivery_of key rows)

abbrev is_processing : DeliveryStatus → Bool
is_processing DeliveryStatus.processing = true
is_processing _ = false

-- The WHERE clause of the two MARK statements.
unfoldable pub is_attempt : Uuid → Uuid → ℕ → NotificationDelivery → Bool
is_attempt tenant_id delivery_id attempt_count d =
    d.id == delivery_id
    && d.tenant_id == tenant_id
    && is_processing d.status
    && d.attempt_count == attempt_count

unfoldable pub mark_where :
    (NotificationDelivery → Bool)
    → (NotificationDelivery → NotificationDelivery)
    → List NotificationDelivery
    → AppResult (Unit {0}) × List NotificationDelivery
mark_where test set rows = (
  if rows_affected test rows == 0
      then err (not_found (codes "external notification delivery"))
      else ok tt,
  update_where test set rows,
)

unfoldable pub sent_delivery :
    Time → Option Text → Option ℤ → Option Text → NotificationDelivery → NotificationDelivery
sent_delivery sent_at message_id status_code response d = record d {
  status = DeliveryStatus.sent;
  last_error = none;
  sent_at = some sent_at;
  provider_message_id = message_id;
  provider_status_code = status_code;
  provider_response = response;
}

unfoldable pub mark_external_notification_delivery_sent :
    Uuid
    → Uuid
    → ℕ
    → Time
    → Option Text
    → Option ℤ
    → Option Text
    → List NotificationDelivery
    → AppResult (Unit {0}) × List NotificationDelivery
unfolding is_attempt mark_where sent_delivery
mark_external_notification_delivery_sent tenant_id delivery_id attempt_count sent_at message_id
      status_code response rows =
    mark_where (is_attempt tenant_id delivery_id attempt_count)
      (sent_delivery sent_at message_id status_code response) rows

unfoldable pub failed_delivery :
    Text → Option ℤ → Option Text → NotificationDelivery → NotificationDelivery
failed_delivery last_error status_code response d = record d {
  status = DeliveryStatus.failed;
  last_error = some last_error;
  provider_status_code = status_code;
  provider_response = response;
  sent_at = none;
  provider_message_id = none;
}

unfoldable pub mark_external_notification_delivery_failed :
    Uuid
    → Uuid
    → ℕ
    → Text
    → Option ℤ
    → Option Text
    → List NotificationDelivery
    → AppResult (Unit {0}) × List NotificationDelivery
unfolding is_attempt mark_where failed_delivery
mark_external_notification_delivery_failed tenant_id delivery_id attempt_count last_error
      status_code response rows =
    mark_where (is_attempt tenant_id delivery_id attempt_count)
      (failed_delivery last_error status_code response) rows
