-- ===== src/Worker/EvmScan/Steps.antt =====
-- What the steps of a scan of token transfers keep, and what they record.
use coin_listener.Prelude.{◌≡◌, refl, List, [], ◌∷◌, Option, none, some, All}
use coin_listener.Prelude.{◌++◌, not, sym}
use coin_listener.Prelude.Int.{ℤ, pos, pos_part, ltb_ℤ}
use coin_listener.Prelude.Radix
use coin_listener.Prelude.Decimal.{hexadecimal}
use coin_listener.Prelude.Json.{Json, Items, object, array, string, null, field, end, cons, nil}
use coin_listener.Core.Error.{ensure, >>-eq-ok, >>=-eq-ok, eq_of_ok}
use coin_listener.Chains.Evm.Logs.{to_rpc_params, topic_items, hex_text}
use coin_listener.Prelude.Text.{Text, codes}
use coin_listener.Core.Error.{AppResult, ok, err}
use coin_listener.Core.Action.{for_each, bind_result}
use coin_listener.Core.Action.Outcomes.{Outcome, Outcome-lift, for_each-Outcome}
use coin_listener.Core.Models.{Asset, ScanAddressContext, AddressEvent}
use coin_listener.Storage.ScanTables.Recorded.{
  IsRecorded, KeepsEvents, Keeps, Keeps-refl, Keeps-trans, insert_event-lem,
}
use coin_listener.Storage.ScanTables.{ScanTables, NewRows, insert_event}
use coin_listener.Chains.Evm.Logs.{EvmLog, EvmLogFilter, decode_erc20_transfer_log}
use coin_listener.Chains.Drafts.{transfer_event_draft, DecodedErc20Transfer}
use coin_listener.Worker.Ranges.{BlockRange}
use coin_listener.Worker.EvmScan.{
  EvmRpcClient, Libraries, eth_get_logs, transfer_filters, scan_log, scan_filter, scan_contract,
  scan_asset,
}

-- The request of eth_getLogs for the blocks of a range.
abbrev pub block_text : ℤ → Text
block_text n = codes "0x" ++ Radix.print hexadecimal (pos_part n)

abbrev pub logs_request : Text → BlockRange → Items → Json
logs_request contract range topics = array (
    cons
      (object (
        field (codes "address") (string contract) (
          field (codes "fromBlock") (string (block_text range.from_block)) (
            field (codes "toBlock") (string (block_text range.to_block))
              (field (codes "topics") (array topics) end)))))
      nil)

-- keccak256 of Transfer(address,address,uint256)
abbrev transfer_topic : Json
transfer_topic = string (codes "0xddf252ad1be2c89b69c2b068fc378daa952ba7f163c4a11628f55a4df523b3ef")

-- The topics of a transfer are its event, its sender and its receiver; null is any.
abbrev pub to_address : Text → Items
to_address topic = cons transfer_topic (cons null (cons (string topic) nil))

abbrev pub from_address : Text → Items
from_address topic = cons transfer_topic (cons (string topic) (cons null nil))

-- A filter that was answered was asked as it stands.
to_rpc_params-ok :
    (filter : EvmLogFilter) (params : Json)
    → to_rpc_params filter ≡ ok params
    → params
      ≡ logs_request filter.address
          (record { from_block = filter.from_block; to_block = filter.to_block })
          (topic_items filter.topics)
unfolding to_rpc_params hex_text
to_rpc_params-ok filter params h =
    let (a, h1) = >>-eq-ok (ensure (not (ltb_ℤ filter.from_block (pos 0))) _) _ h in
    let (b, h2) = >>-eq-ok (ensure (not (ltb_ℤ filter.to_block (pos 0))) _) _ h1 in
    let (c, h3) = >>-eq-ok (ensure (not (ltb_ℤ filter.to_block filter.from_block)) _) _ h2 in
    sym (eq_of_ok h3)

eth_get_logs-ok :
    (rpc : EvmRpcClient) (filter : EvmLogFilter) (logs : List EvmLog)
    → eth_get_logs rpc filter ≡ ok logs
    → rpc.rpc_logs_result (
        logs_request filter.address
          (record { from_block = filter.from_block; to_block = filter.to_block })
          (topic_items filter.topics))
      ≡ ok logs
unfolding eth_get_logs
eth_get_logs-ok rpc filter logs h =
    let (params, p, q) = >>=-eq-ok (to_rpc_params filter) _ h in
    rw (sym (to_rpc_params-ok filter params p)) q

module _ (rows : NewRows) (libraries : Libraries) (context : ScanAddressContext)
    (rpc : EvmRpcClient) (topic : Text) where
  -- A log is decoded and its event recorded.
  abbrev pub IsScannedLog : Asset → EvmLog → ScanTables → Type 0
  IsScannedLog asset log s =
      (transfer : DecodedErc20Transfer) × (decode_erc20_transfer_log libraries.biguint_error
          libraries.biguint_of_hex log asset.decimals
        ≡ ok transfer)
      × IsRecorded (transfer_event_draft context asset transfer) s

  -- The provider answered the filter, and all logs of its answer are scanned.
  abbrev pub IsScannedFilter : Asset → EvmLogFilter → ScanTables → Type 0
  IsScannedFilter asset filter s =
      (logs : List EvmLog) × (eth_get_logs rpc filter ≡ ok logs)
      × All (λ log. IsScannedLog asset log s) logs

  -- The provider answered the request for the logs of the contract in the range with these topics,
  -- and all logs of its answer are scanned.
  abbrev pub IsAnswered : BlockRange → Asset → Text → Items → ScanTables → Type 0
  IsAnswered range asset contract topics s =
      (logs : List EvmLog) × (rpc.rpc_logs_result (logs_request contract range topics) ≡ ok logs)
      × All (λ log. IsScannedLog asset log s) logs

  -- The transfers of the contract to the address, and those from it.
  abbrev pub IsScannedContract : BlockRange → Asset → Option Text → ScanTables → Type 0
  IsScannedContract range asset none s = Unit
  IsScannedContract range asset (some contract) s =
      IsAnswered range asset contract (to_address topic) s
      × IsAnswered range asset contract (from_address topic) s

  -- Both directions of an asset that has a contract are scanned in the range.
  abbrev pub IsScannedAsset : BlockRange → Asset → ScanTables → Type 0
  IsScannedAsset range asset s = IsScannedContract range asset asset.contract_address s

  log_later :
      (asset : Asset) (s t : ScanTables) (log : EvmLog)
      → KeepsEvents s t
      → IsScannedLog asset log s
      → IsScannedLog asset log t
  log_later asset s t log k (transfer, e, r) = (transfer, e, k _ r)

  logs_later :
      (asset : Asset) (s t : ScanTables) (logs : List EvmLog)
      → KeepsEvents s t
      → All (λ log. IsScannedLog asset log s) logs
      → All (λ log. IsScannedLog asset log t) logs
  logs_later asset s t [] k h = tt
  logs_later asset s t (log ∷ logs) k (a, h) =
      (log_later asset s t log k a, logs_later asset s t logs k h)

  filter_later :
      (asset : Asset) (s t : ScanTables) (filter : EvmLogFilter)
      → KeepsEvents s t
      → IsScannedFilter asset filter s
      → IsScannedFilter asset filter t
  filter_later asset s t filter k (logs, e, h) = (logs, e, logs_later asset s t logs k h)

  contract_later :
      (range : BlockRange) (asset : Asset) (contract : Option Text) (s t : ScanTables)
      → KeepsEvents s t
      → IsScannedContract range asset contract s
      → IsScannedContract range asset contract t
  contract_later range asset none s t k h = tt
  contract_later range asset (some contract) s t k ((as_, e, a), (bs, f, b)) =
      ((as_, e, logs_later asset s t as_ k a), (bs, f, logs_later asset s t bs k b))

  pub asset_later :
      (range : BlockRange) (s t : ScanTables) (asset : Asset)
      → KeepsEvents s t
      → IsScannedAsset range asset s
      → IsScannedAsset range asset t
  asset_later range s t asset k h = contract_later range asset asset.contract_address s t k h

  abbrev Scans :
      {A : Type 0} → (ScanTables → Type 0) → ScanTables → AppResult A × ScanTables → Type 0
  Scans P s out = Outcome (Keeps s) (λ _ t. Keeps s t × P t) out

  scan_log-Scans :
      (asset : Asset) (log : EvmLog) (s : ScanTables)
      → Scans (IsScannedLog asset log) s (scan_log rows libraries context asset log s)
  unfolding scan_log transfer_event_draft insert_event
  scan_log-Scans asset log s =
      Outcome-lift (Keeps s) (λ _ t. Keeps s t × IsScannedLog asset log t)
        (decode_erc20_transfer_log libraries.biguint_error libraries.biguint_of_hex log
          asset.decimals)
        s _ (Keeps-refl s)
        (λ transfer e.
          let (k, r) =
            insert_event-lem rows (transfer_event_draft context asset transfer) transfer.tx_hash s
              refl in
          (k, (transfer, e, r)))

  scan_filter-Scans :
      (asset : Asset) (filter : EvmLogFilter) (s : ScanTables)
      → Scans
          (IsScannedFilter asset filter)
          s
          (scan_filter rows libraries context rpc asset filter s)
  unfolding scan_filter
  scan_filter-Scans asset filter s = answered (eth_get_logs rpc filter) refl
    where
      logs_scanned :
          (logs : List EvmLog)
          → eth_get_logs rpc filter ≡ ok logs
          → (out : AppResult (List AddressEvent) × ScanTables)
          → Scans (λ t. All (λ log. IsScannedLog asset log t) logs) s out
          → Scans (IsScannedFilter asset filter) s out
      logs_scanned logs e (err f, t) h = h
      logs_scanned logs e (ok events, t) (k, h) = (k, (logs, e, h))

      answered :
          (r : AppResult (List EvmLog))
          → eth_get_logs rpc filter ≡ r
          → Scans
              (IsScannedFilter asset filter)
              s
              (bind_result (r, s) (for_each (scan_log rows libraries context asset)))
      answered (err f) e = Keeps-refl s
      answered (ok logs) e = logs_scanned logs e _ (
          for_each-Outcome Keeps (IsScannedLog asset) Keeps-refl Keeps-trans
            (λ s t log k. log_later asset s t log k.0) (scan_log rows libraries context asset)
            (scan_log-Scans asset) logs s)

  -- The two filters of a contract, answered.
  scanned_filters :
      (range : BlockRange) (asset : Asset) (contract : Text) (s t : ScanTables)
      → All (λ filter. IsScannedFilter asset filter t) (transfer_filters contract range topic)
      → IsScannedContract range asset (some contract) t
  unfolding transfer_filters
  scanned_filters range asset contract s t ((as_, e, a), ((bs, f, b), _)) =
      ((as_, eth_get_logs-ok rpc _ as_ e, a), (bs, eth_get_logs-ok rpc _ bs f, b))

  scan_contract-Scans :
      (range : BlockRange) (asset : Asset) (contract : Option Text) (s : ScanTables)
      → Scans
          (IsScannedContract range asset contract)
          s
          (scan_contract rows libraries context rpc topic range asset contract s)
  unfolding scan_contract
  scan_contract-Scans range asset none s = (Keeps-refl s, tt)
  scan_contract-Scans range asset (some contract) s = both _ (
      for_each-Outcome Keeps (IsScannedFilter asset) Keeps-refl Keeps-trans
        (λ s t filter k. filter_later asset s t filter k.0)
        (scan_filter rows libraries context rpc asset) (scan_filter-Scans asset)
        (transfer_filters contract range topic) s)
    where
      both :
          (out : AppResult (List AddressEvent) × ScanTables)
          → Scans
              (λ t.
                All
                  (λ filter. IsScannedFilter asset filter t)
                  (transfer_filters contract range topic))
              s
              out
          → Scans (IsScannedContract range asset (some contract)) s out
      both (err e, t) h = h
      both (ok events, t) (k, h) = (k, scanned_filters range asset contract s t h)

  -- The assets of a range: either the scan of one of them fails, with what was recorded kept, or all
  -- of them are scanned.
  pub scan_assets-Scans :
      (range : BlockRange) (assets : List Asset) (s : ScanTables)
      → Scans
          (λ t. All (λ asset. IsScannedAsset range asset t) assets)
          s
          (for_each (scan_asset rows libraries context rpc topic range) assets s)
  unfolding scan_asset
  scan_assets-Scans range assets s =
      for_each-Outcome Keeps (IsScannedAsset range) Keeps-refl Keeps-trans
        (λ s t asset k. asset_later range s t asset k.0)
        (scan_asset rows libraries context rpc topic range)
        (λ asset t. scan_contract-Scans range asset asset.contract_address t) assets s
