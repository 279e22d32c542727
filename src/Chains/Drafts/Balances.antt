-- ===== src/Chains/Drafts/Balances.antt =====
-- `evm_balance_change_event` of backend/crates/chain-providers/src/evm.rs: the draft of a change of
-- a native balance. `parse` is `BigInt::from_str`, with the text of its error; a `BigInt` is an
-- integer.
use coin_listener.Prelude.{false, ◌++◌, Option, none, some, if◌then◌else◌, ◌⊎◌, inl, inr}
use coin_listener.Prelude.Int.{ℤ, pos, ◌-ℤ◌, ltb_ℤ}
use coin_listener.Prelude.Decimal.{show_ℤ}
use coin_listener.Prelude.Text.{Text, codes}
use coin_listener.Prelude.Json.{Json, null, number, string, object, field, end}
use coin_listener.Core.Error.{AppResult, ok, err, validation, ◌>>=◌}
use coin_listener.Core.Models.{
  Uuid, Asset, Provider, BalanceSnapshot, ScanAddressContext, AddressEventDraft,
}

abbrev parsed_or : Text → Text ⊎ ℤ → AppResult ℤ
parsed_or raw (inl e) =
    err (validation (codes "invalid decimal balance " ++ raw ++ codes ": " ++ e))
parsed_or raw (inr value) = ok value

abbrev number_or_null : Option ℤ → Json
number_or_null none = null
number_or_null (some n) = number n

module _ (show_uuid : Uuid → Text) (parse : Text → Text ⊎ ℤ) where
  unfoldable pub parse_decimal_bigint : Text → AppResult ℤ
  parse_decimal_bigint raw = parsed_or raw (parse raw)

  abbrev uuid_or_null : Option Uuid → Json
  uuid_or_null none = null
  uuid_or_null (some id) = string (show_uuid id)

  unfoldable pub balance_change_draft :
      ScanAddressContext
      → Asset
      → BalanceSnapshot
      → BalanceSnapshot
      → Provider
      → ℤ
      → AddressEventDraft
  balance_change_draft context asset previous current provider delta = record {
    tenant_id = context.tenant_id;
    chain_id = context.chain_id;
    address_id = context.id;
    asset_id = asset.id;
    event_type = codes "balance_change";
    direction = if ltb_ℤ delta (pos 0) then codes "out" else codes "in";
    is_transfer = false;
    tx_hash = none;
    log_index = none;
    block_number = current.block_number;
    block_hash = current.block_hash;
    confirmations = pos 0;
    from_address = none;
    to_address = none;
    amount_raw = none;
    amount_decimal = none;
    balance_before_raw = some previous.balance_raw;
    balance_after_raw = some current.balance_raw;
    balance_delta_raw = some (show_ℤ delta);
    metadata = object (
        field (codes "source") (string (codes "evm_balance_snapshot")) (
          field (codes "provider_id") (string (show_uuid provider.id)) (
            field (codes "provider_name") (string provider.name) (
              field (codes "previous_snapshot_id") (string (show_uuid previous.id)) (
                field (codes "current_snapshot_id") (string (show_uuid current.id)) (
                  field (codes "source_provider_id") (uuid_or_null current.source_provider_id)
                    (field (codes "block_number") (number_or_null current.block_number) end)))))));
  }

  unfoldable pub evm_balance_change_event :
      ScanAddressContext
      → Asset
      → BalanceSnapshot
      → BalanceSnapshot
      → Provider
      → AppResult AddressEventDraft
  evm_balance_change_event context asset previous current provider = do
    previous_raw ← parse_decimal_bigint previous.balance_raw
    current_raw ← parse_decimal_bigint current.balance_raw
    ok (balance_change_draft context asset previous current provider (current_raw -ℤ previous_raw))
