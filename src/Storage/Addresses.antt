-- ===== src/Storage/Addresses.antt =====
-- watched_addresses in backend/crates/storage/src/repositories.rs: the statements of the scheduler and
-- of the end of a scan. No other transaction holds a lock, so that SKIP LOCKED skips nothing; of rows
-- that the ORDER BY does not tell apart, the first in the list is taken.
use coin_listener.Prelude.{
  ℕ, ◌+◌, ◌-◌, suc, Bool, ◌&&◌, ◌||◌, not, any, List, [], ◌∷◌, Option, none, some, if◌then◌else◌,
  filter, ltb, ◌==◌, true, false,
}
use coin_listener.Prelude.Int.{ℤ, pos, negsuc}
use coin_listener.Prelude.Text.{Text, text_eq, codes}
use coin_listener.Core.Clock.{Time, seconds}
use coin_listener.Core.Error.{AppResult, ok, err, not_found}
use coin_listener.Core.Models.{Uuid, ScanJob, ScanAddressCandidate}
use coin_listener.Storage.Sql.{update_where, rows_affected}
use coin_listener.Storage.Sql.Order.{order_by}
use coin_listener.Storage.ScanJobs.{is_active_for, at_most}

-- A row: the columns of `WatchedAddress` and the times beside them.
pub record WatchedAddress : Type 0 where
  pub id : Uuid
  pub tenant_id : Uuid
  pub chain_id : Uuid
  pub address : Text
  pub label : Option Text
  pub priority : Text
  pub scan_interval_seconds : ℤ
  pub transfer_filter_enabled : Bool
  pub balance_change_filter_enabled : Bool
  pub status : Text
  pub last_scanned_at : Option Time
  pub next_scan_at : Option Time
  pub created_at : Time
  pub updated_at : Time

-- `now + Duration::seconds(interval)`; times before the epoch are not told apart.
unfoldable pub next_scan_at_from : Time → ℤ → Time
next_scan_at_from now (pos n) = now + seconds n
next_scan_at_from now (negsuc n) = now - seconds (suc n)

-- CLAIM_ONE_DUE_SCAN_ADDRESS_QUERY
unfoldable pub is_due : Time → WatchedAddress → Bool
is_due now a = text_eq a.status (codes "active") && at_most a.next_scan_at now

unfoldable pub is_claimable : List ScanJob → Time → WatchedAddress → Bool
is_claimable jobs now a = is_due now a && not (any (is_active_for a.id) jobs)

abbrev pub before_time : Option Time → Option Time → Bool
before_time (some t) (some u) = ltb t u
before_time (some t) none = true
before_time none u = false

abbrev pub same_time : Option Time → Option Time → Bool
same_time (some t) (some u) = t == u
same_time none none = true
same_time _ _ = false

unfoldable pub precedes : WatchedAddress → WatchedAddress → Bool
precedes a b =
    before_time a.next_scan_at b.next_scan_at
    || (same_time a.next_scan_at b.next_scan_at && ltb a.created_at b.created_at)

abbrev pub scan_candidate : WatchedAddress → ScanAddressCandidate
scan_candidate a = record {
  id = a.id;
  tenant_id = a.tenant_id;
  chain_id = a.chain_id;
  scan_interval_seconds = a.scan_interval_seconds;
}

abbrev pub first_candidate : List WatchedAddress → Option ScanAddressCandidate
first_candidate [] = none
first_candidate (a ∷ rest) = some (scan_candidate a)

unfoldable pub claim_one_due_scan_address_for_update :
    Time → List ScanJob → List WatchedAddress → Option ScanAddressCandidate
claim_one_due_scan_address_for_update now jobs addresses =
    first_candidate (order_by precedes (filter (is_claimable jobs now) addresses))

unfoldable pub ensure_updated : ℕ → AppResult (Unit {0})
ensure_updated rows = if rows == 0 then err (not_found (codes "watched address")) else ok tt

abbrev pub has_address_id : Uuid → WatchedAddress → Bool
has_address_id id a = a.id == id

-- MARK_CLAIMED_SCAN_ENQUEUED_QUERY; `clock` is NOW().
unfoldable pub enqueued_row : Time → Time → WatchedAddress → WatchedAddress
enqueued_row clock next a = record a { next_scan_at = some next; updated_at = clock }

unfoldable pub mark_claimed_scan_enqueued :
    Time → Uuid → Time → List WatchedAddress → AppResult (Unit {0}) × List WatchedAddress
mark_claimed_scan_enqueued clock address_id next addresses = (
  ensure_updated (rows_affected (has_address_id address_id) addresses),
  update_where (has_address_id address_id) (enqueued_row clock next) addresses,
)

unfoldable pub scanned_row : Time → Time → Time → WatchedAddress → WatchedAddress
scanned_row clock last next a = record a {
  last_scanned_at = some last;
  next_scan_at = some next;
  updated_at = clock;
}

unfoldable pub finish_address_scan :
    Time → Uuid → Time → Time → List WatchedAddress → AppResult (Unit {0}) × List WatchedAddress
finish_address_scan clock address_id last next addresses = (
  ensure_updated (rows_affected (has_address_id address_id) addresses),
  update_where (has_address_id address_id) (scanned_row clock last next) addresses,
)
