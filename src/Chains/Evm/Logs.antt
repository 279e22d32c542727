-- ===== src/Chains/Evm/Logs.antt =====
-- The logs of ERC-20 transfers of backend/crates/chain-providers/src/evm.rs: the filter of a request
-- and the decoding of a log.
use coin_listener.Prelude.{ℕ, not, List, [], ◌∷◌, ◌++◌, Option, none, some, length}
use coin_listener.Prelude.Int.{ℤ, pos, pos_part, ltb_ℤ}
use coin_listener.Prelude.Radix
use coin_listener.Prelude.Decimal.{hexadecimal, show_ℕ, show_ℤ}
use coin_listener.Prelude.Text.{Text, codes, to_lower, text_eq}
use coin_listener.Prelude.Json.{Json, Items, null, string, array, object, field, end, nil, cons}
use coin_listener.Core.Error.{AppResult, ok, err, validation, ◌>>=◌, ◌>>◌, ensure}
use coin_listener.Chains.Units.{wei_to_decimal_string}
use coin_listener.Chains.Evm.{ok_or, normalize_hex, topic_to_address}
use coin_listener.Chains.Evm.Quantities.{
  parse_abi_u256_to_decimal_string, parse_required_hex_i64, parse_required_hex_i32,
}
use coin_listener.Chains.Drafts.{DecodedErc20Transfer}

abbrev pub transfer_topic0 : Text
transfer_topic0 = codes "0xddf252ad1be2c89b69c2b068fc378daa952ba7f163c4a11628f55a4df523b3ef"

pub record EvmLogFilter : Type 0 where
  pub address : Text
  pub from_block : ℤ
  pub to_block : ℤ
  pub topics : List (Option Text)

pub record EvmLog : Type 0 where
  pub address : Text
  pub topics : List Text
  pub data_text : Text
  pub transaction_hash : Option Text
  pub log_index : Option Text
  pub block_number : Option Text
  pub block_hash : Option Text

-- `format!("0x{:x}", n)`
unfoldable pub hex_text : ℕ → Text
unfolding Radix.print
hex_text n = codes "0x" ++ Radix.print hexadecimal n

abbrev pub topic_items : List (Option Text) → Items
topic_items [] = nil
topic_items (none ∷ topics) = cons null (topic_items topics)
topic_items (some t ∷ topics) = cons (string t) (topic_items topics)

unfoldable pub to_rpc_params : EvmLogFilter → AppResult Json
unfolding hex_text
to_rpc_params filter = do
  ensure (not (ltb_ℤ filter.from_block (pos 0))) (
      validation (
        codes "invalid eth_getLogs fromBlock "
        ++ show_ℤ filter.from_block
        ++ codes ": must be non-negative"))
  ensure (not (ltb_ℤ filter.to_block (pos 0))) (
      validation (
        codes "invalid eth_getLogs toBlock "
        ++ show_ℤ filter.to_block
        ++ codes ": must be non-negative"))
  ensure (not (ltb_ℤ filter.to_block filter.from_block)) (
      validation (
        codes "invalid eth_getLogs range: fromBlock "
        ++ show_ℤ filter.from_block
        ++ codes " exceeds toBlock "
        ++ show_ℤ filter.to_block))
  ok (
      array (
        cons
          (object (
            field (codes "address") (string filter.address) (
              field (codes "fromBlock") (string (hex_text (pos_part filter.from_block))) (
                field (codes "toBlock") (string (hex_text (pos_part filter.to_block)))
                  (field (codes "topics") (array (topic_items filter.topics)) end)))))
          nil))

-- `if let Some(block_hash) = &log.block_hash { normalize_hex(block_hash, 64, "blockHash")?; }`
abbrev check_block_hash : Option Text → AppResult (Unit {0})
check_block_hash none = ok tt
check_block_hash (some block_hash) = normalize_hex block_hash 64 (codes "blockHash") >>= λ _. ok tt

module _ (parse_error : Text → Option Text) (biguint : Text → Option Text) where
  -- The body on a log with topics 0, 1 and 2.
  unfoldable pub decode_topics : EvmLog → ℤ → Text → Text → Text → AppResult DecodedErc20Transfer
  decode_topics log token_decimals topic0 topic1 topic2 = do
    ensure (text_eq (to_lower topic0) transfer_topic0)
        (validation (codes "invalid erc20 transfer log topic0"))
    tx_hash ←
        ok_or (validation (codes "invalid erc20 transfer log: missing transactionHash"))
          log.transaction_hash
    hash_digits ← normalize_hex tx_hash 64 (codes "transactionHash")
    check_block_hash log.block_hash
    log_index ← parse_required_hex_i32 log.log_index (codes "logIndex")
    block_number ← parse_required_hex_i64 log.block_number (codes "blockNumber")
    amount_raw ← parse_abi_u256_to_decimal_string biguint log.data_text (codes "data")
    amount_decimal ← wei_to_decimal_string parse_error amount_raw token_decimals
    token_contract ← normalize_hex log.address 40 (codes "address")
    from_address ← topic_to_address topic1
    to_address ← topic_to_address topic2
    ok (record {
      tx_hash = tx_hash;
      log_index = log_index;
      block_number = block_number;
      block_hash = log.block_hash;
      from_address = from_address;
      to_address = to_address;
      amount_raw = amount_raw;
      amount_decimal = amount_decimal;
      token_contract = some (codes "0x" ++ to_lower token_contract);
    })

  abbrev topic_count_error : List Text → AppResult DecodedErc20Transfer
  topic_count_error topics =
      err (validation (codes "invalid erc20 transfer log topic count: " ++ show_ℕ (length topics)))

  unfoldable pub decode_erc20_transfer_log : EvmLog → ℤ → AppResult DecodedErc20Transfer
  decode_erc20_transfer_log log token_decimals = of_topics log.topics
    where
      of_topics : List Text → AppResult DecodedErc20Transfer
      of_topics (topic0 ∷ topic1 ∷ topic2 ∷ more) =
          decode_topics log token_decimals topic0 topic1 topic2
      of_topics topics = topic_count_error topics
