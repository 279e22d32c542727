-- ===== src/Worker/BtcScan.antt =====
-- The scan of a Bitcoin address with one provider, of backend/crates/worker/src/lib.rs, and the
-- requests of `BtcClient` (backend/crates/chain-providers/src/btc.rs). HTTP and the JSON of its
-- answers are a parameter, by the path of the request.
pub mod Pages
pub mod Limit
pub mod Complete
use mathlib.Core.Option
use coin_listener.Prelude.{
  ℕ, zero, suc, ◌+◌, Bool, true, false, not, List, [], ◌∷◌, ◌++◌, Option, none, some, if◌then◌else◌,
  leb, length, ◌==◌, ◌⊎◌, map,
}
use coin_listener.Prelude.Int.{ℤ, pos, ltb_ℤ}
use coin_listener.Prelude.Text.{Text, codes}
use coin_listener.Core.Error.{AppError, AppResult, ok, err}
use coin_listener.Core.Error
use coin_listener.Core.Action.{Action, pure, lift, ◌>>=◌, ◌>>◌, for_each}
use coin_listener.Core.Models.{
  Uuid, Asset, Provider, ScanAddressContext, AddressEvent, AddressEventDraft, ScanCursor,
}
use coin_listener.Storage.Catalog.{
  Catalog, native_asset_for_chain, selected_assets_for_address, native_asset_selected,
  ensure_provider_matches_context, provider_timeout_duration,
}
use coin_listener.Storage.ScanTables.{
  ScanTables, NewRows, insert_event, move_cursor, insert_balance_snapshot, read_cursor,
}
use coin_listener.Chains.Btc.{
  BtcBalance, BtcTransaction, BtcTransactionPage, DecodedBtcTransfer, address_path,
  address_txs_page_path, decode_btc_transaction_page, classify_btc_transaction,
  btc_transfer_event_draft,
}
use coin_listener.Worker.Cursors.{btc_scan_from_block, max_of}
use coin_listener.Worker.Paging.{ensure_provider_page_limit, max_provider_pages_per_scan}

-- BTC_TRANSACTION_CURSOR
abbrev pub btc_transaction_cursor : Text
btc_transaction_cursor = codes "btc_transaction"

pub record BtcClient : Type 0 where
  pub get_balance : Text → AppResult BtcBalance
  pub get_transactions : Text → AppResult (List BtcTransaction)

unfoldable pub address_balance : BtcClient → Text → AppResult BtcBalance
unfolding address_path
address_balance client address = Error.◌>>=◌ (address_path address) client.get_balance

unfoldable pub address_transactions_page :
    BtcClient → Text → Option Text → AppResult BtcTransactionPage
unfolding address_txs_page_path decode_btc_transaction_page
address_transactions_page client address last_seen_txid =
    Error.◌>>=◌ (address_txs_page_path address last_seen_txid)
      λ path. Error.◌>>=◌ (client.get_transactions path) decode_btc_transaction_page

unfoldable pub should_process_btc_transaction_page : ℕ → ℕ → AppResult Bool
unfolding ensure_provider_page_limit
should_process_btc_transaction_page pages_processed transaction_count =
    if transaction_count == 0
    then ok false
    else if leb max_provider_pages_per_scan pages_processed
    then Error.◌>>◌
        (ensure_provider_page_limit (codes "BTC address transactions") pages_processed true)
        (ok true)
    else ok true

module _ (bigint : Text → Text ⊎ ℤ) (client : BtcClient) (address : Text) (from_block : ℤ) where
  -- A transfer below the first block is passed over.
  abbrev pub kept : Option DecodedBtcTransfer → List DecodedBtcTransfer
  kept none = []
  kept (some transfer) = if ltb_ℤ transfer.block_number from_block then [] else transfer ∷ []

  -- The loop over the transactions of a page.
  unfoldable pub page_transfers : List BtcTransaction → AppResult (List DecodedBtcTransfer)
  page_transfers [] = ok []
  page_transfers (tx ∷ txs) =
      Error.◌>>=◌ (classify_btc_transaction bigint tx address)
        λ transfer. Error.◌>>=◌ (page_transfers txs) λ rest. ok (kept transfer ++ rest)

  -- `let Some(next) = page.next_last_seen_txid else { break }`
  unfoldable pub after_transfers :
      (Option Text → AppResult (List DecodedBtcTransfer))
      → List DecodedBtcTransfer
      → Option Text
      → AppResult (List DecodedBtcTransfer)
  after_transfers go_on transfers none = ok transfers
  after_transfers go_on transfers (some next) =
      Error.◌>>=◌ (go_on (some next)) λ rest. ok (transfers ++ rest)

  -- What a page adds; `go_on` is the rest of the loop, from the page after it.
  unfoldable pub after_page :
      (Option Text → AppResult (List DecodedBtcTransfer))
      → BtcTransactionPage
      → Bool
      → AppResult (List DecodedBtcTransfer)
  after_page go_on page false = ok []
  after_page go_on page true =
      Error.◌>>=◌ (page_transfers page.transactions)
        λ transfers. after_transfers go_on transfers page.next_last_seen_txid

  -- The `loop` over the pages. The page after the tenth is an error or the end, so that eleven rounds
  -- are enough.
  unfoldable pub pages_loop : ℕ → ℕ → Option Text → AppResult (List DecodedBtcTransfer)
  pages_loop zero pages_processed next = ok []
  pages_loop (suc fuel) pages_processed next =
      Error.◌>>=◌ (address_transactions_page client address next) λ page.
        Error.◌>>=◌ (should_process_btc_transaction_page pages_processed (length page.transactions))
          (after_page (pages_loop fuel (pages_processed + 1)) page)

  unfoldable pub scanned_transfers : AppResult (List DecodedBtcTransfer)
  scanned_transfers = pages_loop (max_provider_pages_per_scan + 1) 0 none

abbrev pub event_list : Option AddressEvent → List AddressEvent
event_list none = []
event_list (some e) = e ∷ []

abbrev pub block_number_of : DecodedBtcTransfer → ℤ
block_number_of transfer = transfer.block_number

module _ (rows : NewRows) (context : ScanAddressContext) where
  unfoldable pub record_transfer :
      Asset → DecodedBtcTransfer → Action ScanTables (List AddressEvent)
  record_transfer native_asset transfer = do
    event ← insert_event rows (btc_transfer_event_draft context native_asset transfer)
    pure (event_list event)

  -- `if let Some(cursor_value) = cursor_value`
  unfoldable pub move_to : Option ℤ → Action ScanTables (Unit {0})
  move_to none = pure tt
  move_to (some cursor_value) =
      move_cursor rows context.tenant_id context.chain_id context.id btc_transaction_cursor
        cursor_value

  unfoldable pub record_transfers :
      Asset → List DecodedBtcTransfer → Action ScanTables (List AddressEvent)
  record_transfers native_asset transfers = do
    events ← for_each (record_transfer native_asset) transfers
    move_to (max_of (map block_number_of transfers))
    pure events

module _ (rows : NewRows) (bigint : Text → Text ⊎ ℤ) (context : ScanAddressContext) where
  unfoldable pub scan_btc_transactions : BtcClient → Asset → Action ScanTables (List AddressEvent)
  scan_btc_transactions client native_asset = do
    cursor ← read_cursor context.id btc_transaction_cursor
    transfers ← lift (scanned_transfers bigint client context.address (btc_scan_from_block cursor))
    record_transfers rows context native_asset transfers

  unfoldable pub scan_native :
      (Provider → BtcClient) → Provider → Asset → Action ScanTables (List AddressEvent)
  scan_native client_of provider native_asset = do
    timeout ← lift (provider_timeout_duration provider)
    let client = client_of provider
    balance ← lift (address_balance client context.address)
    snapshot ← insert_balance_snapshot rows (record {
      tenant_id = context.tenant_id;
      chain_id = context.chain_id;
      address_id = context.id;
      asset_id = native_asset.id;
      balance_raw = balance.balance_raw;
      balance_decimal = balance.balance_decimal;
      block_number = none;
      block_hash = none;
      source_provider_id = some provider.id;
    })
    scan_btc_transactions client native_asset

  unfoldable pub scan_btc_address_with_provider :
      Catalog → (Provider → BtcClient) → Provider → Action ScanTables (List AddressEvent)
  scan_btc_address_with_provider catalog client_of provider = do
    lift (ensure_provider_matches_context provider context)
    native_asset ← lift (native_asset_for_chain catalog context.chain_id)
    let selected_assets = selected_assets_for_address catalog context.id
    (if native_asset_selected selected_assets native_asset
        then scan_native client_of provider native_asset
        else pure [])
