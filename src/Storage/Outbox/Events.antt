-- ===== src/Storage/Outbox/Events.antt =====
-- `insert_event_and_outbox_if_not_exists` of backend/crates/storage/src/repositories.rs: one
-- transaction records an event and queues its notification. The unique index of address_events is
-- that of the migrations: two events conflict on chain, transaction, log index, address, asset and
-- type, and an event with no transaction hash conflicts with none.
pub mod Once
use mathlib.Core.Option
use coin_listener.Prelude.{
  ℕ, Bool, true, false, ◌&&◌, List, [], ◌∷◌, ◌++◌, Option, none, some, if◌then◌else◌, ◌==◌, any,
}
use coin_listener.Prelude.Int.{ℤ, negsuc}
use coin_listener.Prelude.Text.{Text, text_eq}
use coin_listener.Core.Clock.{Time}
use coin_listener.Core.Machine.{eq_ℤ}
use coin_listener.Core.Models.{Uuid, AddressEvent, AddressEventDraft, NotificationOutboxItem}
use coin_listener.Storage.Outbox.{insert_notification_outbox_for_event}

pub record EventTables : Type 0 where
  pub events : List AddressEvent
  pub outbox : List NotificationOutboxItem

abbrev coalesce_log_index : Option ℤ → ℤ
coalesce_log_index none = negsuc 0
coalesce_log_index (some n) = n

abbrev same_hash : Option Text → Option Text → Bool
same_hash (some a) (some b) = text_eq a b
same_hash _ _ = false

unfoldable pub conflicts : AddressEventDraft → AddressEvent → Bool
conflicts d e =
    d.chain_id == e.chain_id
    && same_hash d.tx_hash e.tx_hash
    && eq_ℤ (coalesce_log_index d.log_index) (coalesce_log_index e.log_index)
    && d.address_id == e.address_id
    && d.asset_id == e.asset_id
    && text_eq d.event_type e.event_type

-- The row of a draft, with the id and the times that it gets.
unfoldable pub event_of_draft : Uuid → Time → AddressEventDraft → AddressEvent
event_of_draft id clock d = record {
  id = id;
  tenant_id = d.tenant_id;
  chain_id = d.chain_id;
  address_id = d.address_id;
  asset_id = d.asset_id;
  event_type = d.event_type;
  direction = d.direction;
  is_transfer = d.is_transfer;
  tx_hash = d.tx_hash;
  log_index = d.log_index;
  block_number = d.block_number;
  block_hash = d.block_hash;
  confirmations = d.confirmations;
  from_address = d.from_address;
  to_address = d.to_address;
  amount_raw = d.amount_raw;
  amount_decimal = d.amount_decimal;
  balance_before_raw = d.balance_before_raw;
  balance_after_raw = d.balance_after_raw;
  balance_delta_raw = d.balance_delta_raw;
  metadata = d.metadata;
  detected_at = clock;
  created_at = clock;
}

-- `id` and `outbox_id` are the ids that the two rows get.
unfoldable pub insert_event_and_outbox_if_not_exists :
    Uuid → Uuid → Time → AddressEventDraft → EventTables → Option AddressEvent × EventTables
unfolding conflicts event_of_draft
insert_event_and_outbox_if_not_exists id outbox_id clock draft db =
    let event = event_of_draft id clock draft in
    if any (conflicts draft) db.events then (none, db) else (
      some event,
      record {
        events = db.events ++ event ∷ [];
        outbox =
            insert_notification_outbox_for_event outbox_id clock event.tenant_id event.id db.outbox;
      },
    )
