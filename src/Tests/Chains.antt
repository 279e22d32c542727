-- ===== src/Tests/Chains.antt =====
-- Amounts and topics at concrete inputs.
use coin_listener.Prelude.{
  ◌≡◌, refl, Option, none, arith, some, if◌then◌else◌, length, ◌||◌, not, all, leb,
}
use coin_listener.Prelude.Int.{pos}
use coin_listener.Prelude.Radix
use coin_listener.Prelude.Decimal.{decimal}
use coin_listener.Prelude.Text.{Text, codes, to_lower, strip_prefix, trim_end, is_digit}
use coin_listener.Core.Error.{ok}
use coin_listener.Prelude.{true}
use coin_listener.Core.Models.{ScanAddressContext, Asset}
use coin_listener.Chains.Drafts
use coin_listener.Chains.Drafts.{DecodedErc20Transfer}
use coin_listener.Chains.Drafts.Direction
use coin_listener.Chains.Drafts.Direction.{IsDirection}
use coin_listener.Chains.Evm
use coin_listener.Chains.Evm.Topics
use coin_listener.Chains.Units
use coin_listener.Chains.Units.Exact
use coin_listener.Chains.Units.Exact.{IsDecimal}

-- A parser that accepts the texts of digits alone, which is less than the library does.
abbrev accepting : Text → Option Text
accepting raw =
    if leb (length raw) 0 || not (all is_digit raw)
    then some (codes "invalid digit found in string")
    else none

raw_to_decimal_string-IsDecimal_example :
    (out : Text) × (Units.raw_to_decimal_string accepting (codes "amount") (codes "1050000") (pos 6)
      ≡ ok out)
    × IsDecimal out 6 (Radix.read decimal (codes "1050000"))
raw_to_decimal_string-IsDecimal_example =
    Exact.raw_to_decimal_string-IsDecimal accepting (codes "amount") (codes "1050000") 6
      (omega arith) refl refl

decimal_run : Units.wei_to_decimal_string accepting (codes "1050000") (pos 6) ≡ ok (codes "1.05")
unfolding Units.wei_to_decimal_string trim_end
decimal_run = refl

abbrev address : Text
address = codes "0xABCDEF0123456789abcdef0123456789ABCDEF01"

abbrev lower_address : Text
lower_address = codes "0xabcdef0123456789abcdef0123456789abcdef01"

abbrev topic : Text
topic = codes "0x000000000000000000000000abcdef0123456789abcdef0123456789abcdef01"

topic_of : Evm.address_to_topic address ≡ ok topic
unfolding Evm.address_to_topic Evm.normalize_hex strip_prefix to_lower
topic_of = refl

address_of : Evm.topic_to_address topic ≡ ok lower_address
unfolding Evm.topic_to_address Evm.normalize_hex strip_prefix
address_of = refl

address_to_topic-topic_to_address_example : Evm.topic_to_address topic ≡ ok (to_lower address)
address_to_topic-topic_to_address_example =
    Topics.address_to_topic-topic_to_address address topic topic_of

topic_to_address-address_to_topic_example : Evm.address_to_topic lower_address ≡ ok (to_lower topic)
topic_to_address-address_to_topic_example =
    Topics.topic_to_address-address_to_topic topic lower_address address_of

abbrev context : ScanAddressContext
context = record {
  id = 7;
  tenant_id = 1;
  chain_id = 2;
  address = lower_address;
  scan_interval_seconds = pos 60;
  chain_type = codes "evm";
}

abbrev token : Asset
token = record {
  id = 3;
  chain_id = 2;
  asset_type = codes "erc20";
  symbol = codes "USDT";
  name = codes "Tether";
  contract_address = some (codes "0xdac1");
  decimals = pos 6;
  is_builtin = true;
  status = codes "active";
}

abbrev transfer : DecodedErc20Transfer
transfer = record {
  tx_hash = codes "0xab";
  log_index = pos 4;
  block_number = pos 90;
  block_hash = none;
  from_address = codes "0x01";
  to_address = address;
  amount_raw = codes "1500000";
  amount_decimal = codes "1.5";
  token_contract = some (codes "0xdac1");
}

transfer_event_draft-IsDirection_example :
    IsDirection
      (to_lower lower_address)
      (to_lower (codes "0x01"))
      (to_lower address)
      (Drafts.transfer_event_draft context token transfer).direction
transfer_event_draft-IsDirection_example =
    Direction.transfer_event_draft-IsDirection context token transfer
