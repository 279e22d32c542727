-- ===== src/Worker/EvmScan.antt =====
-- The scan of an EVM address with one provider, of backend/crates/worker/src/lib.rs, and the requests
-- of `EvmRpcClient` (backend/crates/chain-providers/src/evm.rs).
--
-- HTTP and the JSON of its answers are a parameter: a scan asks a provider each question once, so that
-- an answer is a function of the question.
pub mod Steps
pub mod Coverage
pub mod NoGap
use mathlib.Core.Option
use coin_listener.Prelude.{
  ℕ, Bool, true, false, not, List, [], ◌∷◌, ◌++◌, Option, none, some, if◌then◌else◌, ◌⊎◌,
}
use coin_listener.Prelude.Int.{ℤ, pos}
use coin_listener.Prelude.Text.{Text, codes}
use coin_listener.Prelude.Json.{Json, string, array, nil, cons}
use coin_listener.Core.Error.{AppError, AppResult, ok, err}
use coin_listener.Core.Error
use coin_listener.Core.Action.{Action, pure, lift, ◌>>=◌, ◌>>◌, for_each}
use coin_listener.Core.Models.{
  Uuid, Asset, Chain, Provider, ScanAddressContext, AddressEvent, AddressEventDraft, ScanCursor,
  BalanceSnapshot,
}
use coin_listener.Storage.Catalog.{
  Catalog, chain_by_id, native_asset_for_chain, selected_assets_for_address,
  selected_assets_by_type, native_asset_selected, ensure_provider_matches_context,
  provider_timeout_duration,
}
use coin_listener.Storage.ScanTables.{
  ScanTables, NewRows, CreateBalanceSnapshotRequest, insert_event, move_cursor,
  insert_balance_snapshot, read_cursor, read_latest_snapshot,
}
use coin_listener.Chains.Units.{wei_to_decimal_string}
use coin_listener.Chains.Evm.{address_to_topic}
use coin_listener.Chains.Evm.Quantities.{
  parse_hex_quantity_to_i64, parse_hex_u256_to_decimal_string,
}
use coin_listener.Chains.Evm.Logs.{
  EvmLog, EvmLogFilter, to_rpc_params, transfer_topic0, decode_erc20_transfer_log,
}
use coin_listener.Chains.Drafts.{transfer_event_draft, DecodedErc20Transfer}
use coin_listener.Chains.Drafts.Balances.{evm_balance_change_event}
use coin_listener.Worker.Ranges.{BlockRange, bounded_block_ranges}
use coin_listener.Worker.Cursors.{evm_transfer_scan_range, evm_transfer_initial_window_blocks}
use coin_listener.Worker.Paging.{should_emit_balance_change}

-- EVM_ERC20_TRANSFER_CURSOR, EVM_LOG_MAX_BLOCK_SPAN
abbrev pub evm_erc20_transfer_cursor : Text
evm_erc20_transfer_cursor = codes "evm_erc20_transfer"

abbrev pub evm_log_max_block_span : ℤ
evm_log_max_block_span = pos evm_transfer_initial_window_blocks

-- A JSON-RPC endpoint: the method and its parameters, and the hexadecimal text or the logs of the
-- answer.
pub record EvmRpcClient : Type 0 where
  pub rpc_hex_result : Text → Json → AppResult Text
  pub rpc_logs_result : Json → AppResult (List EvmLog)

-- What the scan takes from the libraries: the texts of ids and the numbers of num-bigint.
pub record Libraries : Type 0 where
  pub show_uuid : Uuid → Text
  pub biguint_error : Text → Option Text
  pub biguint_of_hex : Text → Option Text
  pub bigint : Text → Text ⊎ ℤ

unfoldable pub eth_block_number : EvmRpcClient → AppResult ℤ
unfolding parse_hex_quantity_to_i64
eth_block_number rpc =
    Error.◌>>=◌ (rpc.rpc_hex_result (codes "eth_blockNumber") (array nil)) parse_hex_quantity_to_i64

unfoldable pub eth_get_balance : EvmRpcClient → Text → AppResult Text
eth_get_balance rpc address =
    rpc.rpc_hex_result (codes "eth_getBalance")
      (array (cons (string address) (cons (string (codes "latest")) nil)))

unfoldable pub eth_get_logs : EvmRpcClient → EvmLogFilter → AppResult (List EvmLog)
unfolding to_rpc_params
eth_get_logs rpc filter = Error.◌>>=◌ (to_rpc_params filter) rpc.rpc_logs_result

abbrev pub event_list : Option AddressEvent → List AddressEvent
event_list none = []
event_list (some e) = e ∷ []

-- The two filters of an asset in a range: transfers to the address, then from it.
unfoldable pub transfer_filters : Text → BlockRange → Text → List EvmLogFilter
transfer_filters contract_address range watched_topic =
    record {
      address = contract_address;
      from_block = range.from_block;
      to_block = range.to_block;
      topics = some transfer_topic0 ∷ none ∷ some watched_topic ∷ [];
    }
    ∷ record {
      address = contract_address;
      from_block = range.from_block;
      to_block = range.to_block;
      topics = some transfer_topic0 ∷ some watched_topic ∷ none ∷ [];
    }
    ∷ []

abbrev pub is_empty_list : List Asset → Bool
is_empty_list [] = true
is_empty_list (a ∷ rest) = false

module _ (rows : NewRows) (libraries : Libraries) (context : ScanAddressContext) where
  -- The body of `for log in logs`.
  unfoldable pub scan_log : Asset → EvmLog → Action ScanTables (List AddressEvent)
  scan_log asset log = do
    transfer ← lift (
        decode_erc20_transfer_log libraries.biguint_error libraries.biguint_of_hex log
          asset.decimals)
    event ← insert_event rows (transfer_event_draft context asset transfer)
    pure (event_list event)

  unfoldable pub scan_filter :
      EvmRpcClient → Asset → EvmLogFilter → Action ScanTables (List AddressEvent)
  scan_filter rpc asset filter = do
    logs ← lift (eth_get_logs rpc filter)
    for_each (scan_log asset) logs

  -- The body of `for asset in &assets`.
  unfoldable pub scan_contract :
      EvmRpcClient → Text → BlockRange → Asset → Option Text → Action ScanTables (List AddressEvent)
  scan_contract rpc watched_topic range asset none = pure []
  scan_contract rpc watched_topic range asset (some contract_address) =
      for_each (scan_filter rpc asset) (transfer_filters contract_address range watched_topic)

  unfoldable pub scan_asset :
      EvmRpcClient → Text → BlockRange → Asset → Action ScanTables (List AddressEvent)
  scan_asset rpc watched_topic range asset =
      scan_contract rpc watched_topic range asset asset.contract_address

  -- The body of `for range in ranges`.
  unfoldable pub scan_range :
      EvmRpcClient → Text → List Asset → BlockRange → Action ScanTables (List AddressEvent)
  scan_range rpc watched_topic assets range = do
    events ← for_each (scan_asset rpc watched_topic range) assets
    move_cursor rows context.tenant_id context.chain_id context.id evm_erc20_transfer_cursor
        range.to_block
    pure events

  unfoldable pub scan_blocks :
      EvmRpcClient → List Asset → Option (ℤ × ℤ) → Action ScanTables (List AddressEvent)
  scan_blocks rpc assets none = pure []
  scan_blocks rpc assets (some (from_block, to_block)) =
      if is_empty_list assets then pure [] else (do
        watched_topic ← lift (address_to_topic context.address)
        ranges ← lift (bounded_block_ranges from_block to_block evm_log_max_block_span)
        for_each (scan_range rpc watched_topic assets) ranges)

  unfoldable pub scan_evm_erc20_transfers :
      EvmRpcClient → ℤ → ℤ → List Asset → Action ScanTables (List AddressEvent)
  scan_evm_erc20_transfers rpc latest_block default_confirmations selected_assets = do
    cursor ← read_cursor context.id evm_erc20_transfer_cursor
    blocks ← lift (evm_transfer_scan_range cursor latest_block default_confirmations)
    scan_blocks rpc (selected_assets_by_type selected_assets (codes "erc20")) blocks

  -- The event of a snapshot against the one before it.
  unfoldable pub emit_balance_change :
      Asset
      → Provider
      → BalanceSnapshot
      → Option BalanceSnapshot
      → Action ScanTables (Option AddressEvent)
  emit_balance_change asset provider current none = pure none
  emit_balance_change asset provider current (some previous) =
      if should_emit_balance_change (some previous) current
      then (do
        draft ← lift (
            evm_balance_change_event libraries.show_uuid libraries.bigint context asset previous
              current provider)
        insert_event rows draft)
      else pure none

  unfoldable pub scan_evm_native_balance_with_context :
      EvmRpcClient → Asset → Provider → ℤ → Action ScanTables (Option AddressEvent)
  scan_evm_native_balance_with_context rpc asset provider block_number = do
    balance_hex ← lift (eth_get_balance rpc context.address)
    balance_raw ← lift (parse_hex_u256_to_decimal_string libraries.biguint_of_hex balance_hex)
    balance_decimal ←
        lift (wei_to_decimal_string libraries.biguint_error balance_raw asset.decimals)
    current ← insert_balance_snapshot rows (record {
      tenant_id = context.tenant_id;
      chain_id = context.chain_id;
      address_id = context.id;
      asset_id = asset.id;
      balance_raw = balance_raw;
      balance_decimal = balance_decimal;
      block_number = some block_number;
      block_hash = none;
      source_provider_id = some provider.id;
    })
    previous ← read_latest_snapshot context.id asset.id (some current.id)
    emit_balance_change asset provider current previous

  -- The native balance, where the address selects the native asset.
  unfoldable pub scan_native :
      EvmRpcClient → List Asset → Asset → Provider → ℤ → Action ScanTables (List AddressEvent)
  scan_native rpc selected_assets native_asset provider latest_block =
      if native_asset_selected selected_assets native_asset
      then (do
        event ← scan_evm_native_balance_with_context rpc native_asset provider latest_block
        pure (event_list event))
      else pure []

  unfoldable pub scan_evm_address_with_provider :
      Catalog → (Provider → EvmRpcClient) → Provider → Action ScanTables (List AddressEvent)
  scan_evm_address_with_provider catalog client_of provider = do
    lift (ensure_provider_matches_context provider context)
    chain ← lift (chain_by_id catalog context.chain_id)
    native_asset ← lift (native_asset_for_chain catalog context.chain_id)
    let selected_assets = selected_assets_for_address catalog context.id
    let rpc = client_of provider
    timeout ← lift (provider_timeout_duration provider)
    latest_block ← lift (eth_block_number rpc)
    native_events ← scan_native rpc selected_assets native_asset provider latest_block
    token_events ←
        scan_evm_erc20_transfers rpc latest_block chain.default_confirmations selected_assets
    pure (native_events ++ token_events)
