-- ===== src/Storage/ScanTables.antt =====
-- The tables that a scan of an address writes, and its writes as steps: an event with its
-- notification, a cursor, a balance snapshot. Each is a statement, or a transaction, of its own.
pub mod Recorded
use coin_listener.Prelude.{
  Bool, true, ◌&&◌, not, List, [], ◌∷◌, ◌++◌, Option, none, some, if◌then◌else◌, ltb, ◌==◌, filter,
}
use coin_listener.Prelude.Int.{ℤ}
use coin_listener.Prelude.Text.{Text}
use coin_listener.Core.Clock.{Time}
use coin_listener.Core.Error.{ok}
use coin_listener.Core.Action.{Action}
use coin_listener.Core.Models.{Uuid, AddressEvent, AddressEventDraft, BalanceSnapshot, ScanCursor}
use coin_listener.Storage.Outbox.Events
use coin_listener.Storage.Outbox.Events.{EventTables}
use coin_listener.Storage.Cursors

pub record ScanTables : Type 0 where
  pub recorded : EventTables
  pub cursors : List ScanCursor
  pub snapshots : List BalanceSnapshot

-- The ids that the database gives to the rows that come next, and its clock.
pub record NewRows : Type 0 where
  pub event_id : EventTables → Uuid
  pub outbox_id : EventTables → Uuid
  pub cursor_id : List ScanCursor → Uuid
  pub snapshot_id : List BalanceSnapshot → Uuid
  pub clock : ScanTables → Time

pub record CreateBalanceSnapshotRequest : Type 0 where
  pub tenant_id : Uuid
  pub chain_id : Uuid
  pub address_id : Uuid
  pub asset_id : Uuid
  pub balance_raw : Text
  pub balance_decimal : Text
  pub block_number : Option ℤ
  pub block_hash : Option Text
  pub source_provider_id : Option Uuid

-- LATEST_BALANCE_SNAPSHOT_QUERY; of rows with one time it may take any, here the first.
abbrev is_other_snapshot : Option Uuid → BalanceSnapshot → Bool
is_other_snapshot none b = true
is_other_snapshot (some id) b = not (b.id == id)

abbrev later : BalanceSnapshot → Option BalanceSnapshot → BalanceSnapshot
later b none = b
later b (some c) = if ltb b.observed_at c.observed_at then c else b

unfoldable pub latest : List BalanceSnapshot → Option BalanceSnapshot
latest [] = none
latest (b ∷ bs) = some (later b (latest bs))

unfoldable pub latest_balance_snapshot :
    Uuid → Uuid → Option Uuid → List BalanceSnapshot → Option BalanceSnapshot
unfolding latest
latest_balance_snapshot address_id asset_id before_snapshot_id snapshots = latest (
    filter
      (λ (b : BalanceSnapshot).
        b.address_id == address_id
        && b.asset_id == asset_id
        && is_other_snapshot before_snapshot_id b)
      snapshots)

unfoldable pub read_cursor : Uuid → Text → Action ScanTables (Option ScanCursor)
read_cursor address_id cursor_type s =
    (ok (Cursors.scan_cursor address_id cursor_type s.cursors), s)

unfoldable pub read_latest_snapshot :
    Uuid → Uuid → Option Uuid → Action ScanTables (Option BalanceSnapshot)
read_latest_snapshot address_id asset_id before s =
    (ok (latest_balance_snapshot address_id asset_id before s.snapshots), s)

module _ (rows : NewRows) where
  unfoldable pub insert_event : AddressEventDraft → Action ScanTables (Option AddressEvent)
  insert_event draft s =
      let (event, recorded) =
        Events.insert_event_and_outbox_if_not_exists (rows.event_id s.recorded)
          (rows.outbox_id s.recorded) (rows.clock s) draft s.recorded in
      (ok event, record s { recorded = recorded })

  unfoldable pub move_cursor : Uuid → Uuid → Uuid → Text → ℤ → Action ScanTables (Unit {0})
  move_cursor tenant_id chain_id address_id cursor_type block s =
      let cursors =
        Cursors.upsert_scan_cursor (rows.cursor_id s.cursors) (rows.clock s) tenant_id chain_id
          address_id cursor_type block s.cursors in
      (ok tt, record s { cursors = cursors })

  abbrev snapshot_row : Uuid → Time → CreateBalanceSnapshotRequest → BalanceSnapshot
  snapshot_row id clock request = record {
    id = id;
    tenant_id = request.tenant_id;
    chain_id = request.chain_id;
    address_id = request.address_id;
    asset_id = request.asset_id;
    balance_raw = request.balance_raw;
    balance_decimal = request.balance_decimal;
    block_number = request.block_number;
    block_hash = request.block_hash;
    observed_at = clock;
    source_provider_id = request.source_provider_id;
  }

  unfoldable pub insert_balance_snapshot :
      CreateBalanceSnapshotRequest → Action ScanTables BalanceSnapshot
  insert_balance_snapshot request s =
      let row = snapshot_row (rows.snapshot_id s.snapshots) (rows.clock s) request in
      (ok row, record s { snapshots = s.snapshots ++ row ∷ [] })
