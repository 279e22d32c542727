-- ===== src/Core/Models.antt =====
-- backend/crates/core/src/models.rs: the rows that the modelled parts read and write.
--
-- A `Uuid` is its 128-bit number, a `String` a text, `i32` and `i64` are integers, and times are
-- microseconds. A status column whose words are all written by the modelled statements is an
-- enumeration, and an attempt count, which starts at 0 and only grows, is a natural number.
use coin_listener.Prelude.{ℕ, Bool, Option, List}
use coin_listener.Prelude.Int.{ℤ}
use coin_listener.Prelude.Text.{Text}
use coin_listener.Prelude.Json.{Json}
use coin_listener.Core.Clock.{Time}

abbrev pub Uuid : Type 0
Uuid = ℕ

pub data ScanJobStatus : Type 0 where
  pending retryable processing succeeded dead_letter : ScanJobStatus

pub data OutboxStatus : Type 0 where
  pending processing retryable delivered failed : OutboxStatus

pub data DeliveryStatus : Type 0 where
  processing sent skipped failed : DeliveryStatus

pub data ScanRunStatus : Type 0 where
  running success failed locked unsupported : ScanRunStatus

pub record Chain : Type 0 where
  pub id : Uuid
  pub key : Text
  pub name : Text
  pub chain_type : Text
  pub native_asset_symbol : Text
  pub status : Text
  pub default_confirmations : ℤ

pub record Provider : Type 0 where
  pub id : Uuid
  pub chain_id : Uuid
  pub provider_type : Text
  pub name : Text
  pub base_url : Text
  pub api_key_ref : Option Text
  pub priority : ℤ
  pub qps_limit : ℤ
  pub timeout_ms : ℤ
  pub status : Text

pub record Asset : Type 0 where
  pub id : Uuid
  pub chain_id : Uuid
  pub asset_type : Text
  pub symbol : Text
  pub name : Text
  pub contract_address : Option Text
  pub decimals : ℤ
  pub is_builtin : Bool
  pub status : Text

pub record BalanceSnapshot : Type 0 where
  pub id : Uuid
  pub tenant_id : Uuid
  pub chain_id : Uuid
  pub address_id : Uuid
  pub asset_id : Uuid
  pub balance_raw : Text
  pub balance_decimal : Text
  pub block_number : Option ℤ
  pub block_hash : Option Text
  pub observed_at : Time
  pub source_provider_id : Option Uuid

pub record AddressEvent : Type 0 where
  pub id : Uuid
  pub tenant_id : Uuid
  pub chain_id : Uuid
  pub address_id : Uuid
  pub asset_id : Uuid
  pub event_type : Text
  pub direction : Text
  pub is_transfer : Bool
  pub tx_hash : Option Text
  pub log_index : Option ℤ
  pub block_number : Option ℤ
  pub block_hash : Option Text
  pub confirmations : ℤ
  pub from_address : Option Text
  pub to_address : Option Text
  pub amount_raw : Option Text
  pub amount_decimal : Option Text
  pub balance_before_raw : Option Text
  pub balance_after_raw : Option Text
  pub balance_delta_raw : Option Text
  pub metadata : Json
  pub detected_at : Time
  pub created_at : Time

pub record ScanRun : Type 0 where
  pub id : Uuid
  pub tenant_id : Uuid
  pub task_id : Uuid
  pub address_id : Uuid
  pub chain_id : Uuid
  pub chain_type : Text
  pub status : ScanRunStatus
  pub event_count : ℤ
  pub started_at : Time
  pub finished_at : Option Time
  pub duration_ms : Option ℤ
  pub error_message : Option Text
  pub metadata : Json
  pub created_at : Time
  pub updated_at : Time

pub record ScanJob : Type 0 where
  pub id : Uuid
  pub tenant_id : Uuid
  pub address_id : Uuid
  pub chain_id : Uuid
  pub status : ScanJobStatus
  pub attempt_count : ℕ
  pub max_attempts : ℕ
  pub next_attempt_at : Time
  pub locked_at : Option Time
  pub locked_by : Option Text
  pub lease_expires_at : Option Time
  pub last_error : Option Text
  pub last_scan_run_id : Option Uuid
  pub retry_of_scan_run_id : Option Uuid
  pub succeeded_at : Option Time
  pub dead_lettered_at : Option Time
  pub created_at : Time
  pub updated_at : Time

pub record ProviderHealthStatus : Type 0 where
  pub consecutive_failures : ℤ
  pub last_success_at : Option Time
  pub last_failure_at : Option Time
  pub disabled_until : Option Time
  pub last_error : Option Text
  pub is_circuit_open : Bool

pub record ScanAddressTask : Type 0 where
  pub task_id : Uuid
  pub address_id : Uuid
  pub tenant_id : Uuid
  pub chain_id : Uuid
  pub attempt : ℕ
  pub enqueued_at : Time

pub record NotifyEventTask : Type 0 where
  pub task_id : Uuid
  pub event_id : Uuid
  pub tenant_id : Uuid
  pub attempt : ℕ
  pub enqueued_at : Time

pub record NotificationChannel : Type 0 where
  pub id : Uuid
  pub tenant_id : Uuid
  pub channel_type : Text
  pub name : Text
  pub config : Json
  pub status : Text
  pub created_at : Time
  pub updated_at : Time

pub record NotificationRule : Type 0 where
  pub id : Uuid
  pub tenant_id : Uuid
  pub name : Text
  pub chain_id : Option Uuid
  pub address_id : Option Uuid
  pub asset_id : Option Uuid
  pub event_type : Option Text
  pub is_transfer : Option Bool
  pub min_amount_raw : Option Text
  pub direction : Option Text
  pub channel_ids : List Uuid
  pub enabled : Bool
  pub created_at : Time
  pub updated_at : Time

pub record NotificationOutboxItem : Type 0 where
  pub id : Uuid
  pub tenant_id : Uuid
  pub event_id : Uuid
  pub status : OutboxStatus
  pub attempt_count : ℕ
  pub next_attempt_at : Time
  pub locked_at : Option Time
  pub locked_by : Option Text
  pub last_error : Option Text
  pub delivered_at : Option Time
  pub created_at : Time
  pub updated_at : Time

pub record ScanAddressCandidate : Type 0 where
  pub id : Uuid
  pub tenant_id : Uuid
  pub chain_id : Uuid
  pub scan_interval_seconds : ℤ

pub record ScanAddressContext : Type 0 where
  pub id : Uuid
  pub tenant_id : Uuid
  pub chain_id : Uuid
  pub address : Text
  pub scan_interval_seconds : ℤ
  pub chain_type : Text

pub record ScanCursor : Type 0 where
  pub id : Uuid
  pub tenant_id : Uuid
  pub chain_id : Uuid
  pub address_id : Uuid
  pub cursor_type : Text
  pub last_scanned_block : ℤ
  pub updated_at : Time

pub record AddressEventDraft : Type 0 where
  pub tenant_id : Uuid
  pub chain_id : Uuid
  pub address_id : Uuid
  pub asset_id : Uuid
  pub event_type : Text
  pub direction : Text
  pub is_transfer : Bool
  pub tx_hash : Option Text
  pub log_index : Option ℤ
  pub block_number : Option ℤ
  pub block_hash : Option Text
  pub confirmations : ℤ
  pub from_address : Option Text
  pub to_address : Option Text
  pub amount_raw : Option Text
  pub amount_decimal : Option Text
  pub balance_before_raw : Option Text
  pub balance_after_raw : Option Text
  pub balance_delta_raw : Option Text
  pub metadata : Json

pub record NotificationDelivery : Type 0 where
  pub id : Uuid
  pub tenant_id : Uuid
  pub event_id : Uuid
  pub rule_id : Option Uuid
  pub channel_id : Option Uuid
  pub status : DeliveryStatus
  pub attempt_count : ℕ
  pub last_error : Option Text
  pub sent_at : Option Time
  pub created_at : Time
  pub channel_type : Option Text
  pub idempotency_key : Option Text
  pub provider_message_id : Option Text
  pub provider_status_code : Option ℤ
  pub provider_response : Option Text
