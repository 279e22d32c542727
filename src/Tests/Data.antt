-- ===== src/Tests/Data.antt =====
-- The rows and tables of the tests.
use coin_listener.Prelude.{ℕ, ◌-◌, if◌then◌else◌, ltb, true, [], ◌∷◌, Option, none, some}
use coin_listener.Prelude.Int.{pos}
use coin_listener.Prelude.Text.{Text, codes}
use coin_listener.Prelude.Json.{object, end}
use coin_listener.Core.Clock.{Time}
use coin_listener.Core.Models.{
  ScanJob, ScanJobStatus, ScanRun, ScanRunStatus, ScanAddressCandidate, AddressEvent,
  AddressEventDraft, NotificationOutboxItem, OutboxStatus, NotificationRule, ScanCursor,
}
use coin_listener.Storage.Postgres.{Postgres}
use coin_listener.Storage.ScanJobs.Claim.{ScanTables}
use coin_listener.Storage.Outbox.Events.{EventTables}

-- A bound on the length of a lease, milliseconds between two times, and the right operand of a
-- concatenation.
abbrev pub postgres : Postgres
postgres = record {
  lease_error =
      λ now ttl. if ltb 9000000000000 ttl then some (codes "timestamp out of range") else none;
  duration_ms = λ from to. pos (to - from);
  jsonb_concat = λ a b. b;
}

abbrev pub candidate : ScanAddressCandidate
candidate = record { id = 7; tenant_id = 1; chain_id = 2; scan_interval_seconds = pos 60 }

abbrev pub alice : Text
alice = codes "alice"

abbrev pub bob : Text
bob = codes "bob"

abbrev pub job : ScanJobStatus → ℕ → Option Text → Option Time → ScanJob
job status attempts owner lease = record {
  id = 1;
  tenant_id = 1;
  address_id = 7;
  chain_id = 2;
  status = status;
  attempt_count = attempts;
  max_attempts = 3;
  next_attempt_at = 50;
  locked_at = lease;
  locked_by = owner;
  lease_expires_at = lease;
  last_error = none;
  last_scan_run_id = none;
  retry_of_scan_run_id = none;
  succeeded_at = none;
  dead_lettered_at = none;
  created_at = 40;
  updated_at = 40;
}

-- A job that waits, and a job that `alice` runs until time 1000.
abbrev pub waiting : ScanJob
waiting = job ScanJobStatus.pending 0 none none

abbrev pub leased : ScanJob
leased = job ScanJobStatus.processing 1 (some alice) (some 1000)

abbrev pub run : ScanRun
run = record {
  id = 5;
  tenant_id = 1;
  task_id = 1;
  address_id = 7;
  chain_id = 2;
  chain_type = codes "evm";
  status = ScanRunStatus.running;
  event_count = pos 0;
  started_at = 100;
  finished_at = none;
  duration_ms = none;
  error_message = none;
  metadata = object end;
  created_at = 100;
  updated_at = 100;
}

abbrev pub tables : ScanJob → ScanTables
tables j = record { jobs = j ∷ []; runs = run ∷ [] }

abbrev pub item : NotificationOutboxItem
item = record {
  id = 21;
  tenant_id = 1;
  event_id = 11;
  status = OutboxStatus.pending;
  attempt_count = 0;
  next_attempt_at = 50;
  locked_at = none;
  locked_by = none;
  last_error = none;
  delivered_at = none;
  created_at = 50;
  updated_at = 50;
}

abbrev pub draft : AddressEventDraft
draft = record {
  tenant_id = 1;
  chain_id = 2;
  address_id = 7;
  asset_id = 3;
  event_type = codes "transfer";
  direction = codes "in";
  is_transfer = true;
  tx_hash = some (codes "0xab");
  log_index = some (pos 4);
  block_number = some (pos 90);
  block_hash = none;
  confirmations = pos 0;
  from_address = none;
  to_address = none;
  amount_raw = some (codes "1500");
  amount_decimal = none;
  balance_before_raw = none;
  balance_after_raw = none;
  balance_delta_raw = none;
  metadata = object end;
}

abbrev pub event : AddressEvent
event = record {
  id = 11;
  tenant_id = 1;
  chain_id = 2;
  address_id = 7;
  asset_id = 3;
  event_type = codes "transfer";
  direction = codes "in";
  is_transfer = true;
  tx_hash = some (codes "0xab");
  log_index = some (pos 4);
  block_number = some (pos 90);
  block_hash = none;
  confirmations = pos 0;
  from_address = none;
  to_address = none;
  amount_raw = some (codes "1500");
  amount_decimal = none;
  balance_before_raw = none;
  balance_after_raw = none;
  balance_delta_raw = none;
  metadata = object end;
  detected_at = 50;
  created_at = 50;
}

abbrev pub events : EventTables
events = record { events = event ∷ []; outbox = item ∷ [] }

abbrev pub rule : NotificationRule
rule = record {
  id = 31;
  tenant_id = 1;
  name = codes "large";
  chain_id = some 2;
  address_id = none;
  asset_id = some 3;
  event_type = some (codes "transfer");
  is_transfer = some true;
  min_amount_raw = some (codes "0900");
  direction = some (codes "in");
  channel_ids = [];
  enabled = true;
  created_at = 10;
  updated_at = 10;
}

abbrev pub cursor : ℕ → ScanCursor
cursor block = record {
  id = 41;
  tenant_id = 1;
  chain_id = 2;
  address_id = 7;
  cursor_type = codes "evm_erc20_transfer";
  last_scanned_block = pos block;
  updated_at = 20;
}
