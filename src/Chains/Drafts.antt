-- ===== src/Chains/Drafts.antt =====
-- The event drafts of EVM token transfers: `transfer_event_draft` of
-- backend/crates/chain-providers/src/evm.rs. Addresses are ASCII, so that `to_lowercase` changes the
-- letters A to Z alone.
pub mod Direction
pub mod Balances
use coin_listener.Prelude.{ℕ, Bool, true, false, ◌&&◌, Option, none, some, if◌then◌else◌}
use coin_listener.Prelude.Int.{ℤ, pos}
use coin_listener.Prelude.Text.{Text, codes, text_eq, to_lower}
use coin_listener.Prelude.Json.{Json, Fields, null, bool, number, array, object, string, field, end}
use coin_listener.Core.Models.{ScanAddressContext, Asset, AddressEventDraft}

pub record DecodedErc20Transfer : Type 0 where
  pub tx_hash : Text
  pub log_index : ℤ
  pub block_number : ℤ
  pub block_hash : Option Text
  pub from_address : Text
  pub to_address : Text
  pub amount_raw : Text
  pub amount_decimal : Text
  pub token_contract : Option Text

-- `insert` on an object: the field's value is replaced, or the field joins.
unfoldable pub insert_field : Text → Json → Fields → Fields
insert_field key value end = field key value end
insert_field key value (field k v fields) =
    let rest = insert_field key value fields in
    if text_eq k key then field key value fields else field k v rest

abbrev json_text : Option Text → Json
json_text none = null
json_text (some t) = string t

unfoldable pub with_token_contract : Json → Option Text → Json
unfolding insert_field
with_token_contract (object fields) token_contract =
    object (insert_field (codes "token_contract") (json_text token_contract) fields)
with_token_contract _ token_contract = object (
    field (codes "source") (string (codes "evm_erc20_transfer_log"))
      (field (codes "token_contract") (json_text token_contract) end))

unfoldable pub transfer_direction : Text → Text → Text → Text
transfer_direction watched from to =
    if text_eq from watched && text_eq to watched
    then codes "self"
    else if text_eq to watched
    then codes "in"
    else if text_eq from watched
    then codes "out"
    else codes "unknown"

unfoldable pub transfer_event_draft_with_metadata :
    ScanAddressContext → Asset → DecodedErc20Transfer → Json → AddressEventDraft
unfolding with_token_contract transfer_direction
transfer_event_draft_with_metadata context asset transfer metadata = record {
  tenant_id = context.tenant_id;
  chain_id = context.chain_id;
  address_id = context.id;
  asset_id = asset.id;
  event_type = codes "transfer";
  direction =
      transfer_direction (to_lower context.address) (to_lower transfer.from_address)
        (to_lower transfer.to_address);
  is_transfer = true;
  tx_hash = some transfer.tx_hash;
  log_index = some transfer.log_index;
  block_number = some transfer.block_number;
  block_hash = transfer.block_hash;
  confirmations = pos 0;
  from_address = some transfer.from_address;
  to_address = some transfer.to_address;
  amount_raw = some transfer.amount_raw;
  amount_decimal = some transfer.amount_decimal;
  balance_before_raw = none;
  balance_after_raw = none;
  balance_delta_raw = none;
  metadata = with_token_contract metadata transfer.token_contract;
}

unfoldable pub transfer_event_draft :
    ScanAddressContext → Asset → DecodedErc20Transfer → AddressEventDraft
unfolding transfer_event_draft_with_metadata
transfer_event_draft context asset transfer =
    transfer_event_draft_with_metadata context asset transfer
      (object (field (codes "source") (string (codes "evm_erc20_transfer_log")) end))
