-- ===== src/Tests/Scans.antt =====
-- Scans of an EVM address and of a Bitcoin address at concrete answers of their providers.
use coin_listener.Storage.Sql.{update_where}
use coin_listener.Storage.Sql.Upsert.{upsert}
use coin_listener.Storage.Outbox.{insert_notification_outbox_for_event, new_outbox_item}
use coin_listener.Core.Action.{for_each}
use coin_listener.Chains.Units.{fraction_text, pad, with_point}
use coin_listener.Prelude.{
  ℕ, zero, suc, ◌≡◌, refl, true, false, inr, List, [], ◌∷◌, ◌++◌, map, Option, none, some,
  replicate, length, ◌+◌, arith, if◌then◌else◌,
}
use coin_listener.Prelude.Int.{ℤ, pos, ◌≤ℤ◌, ltb_ℤ, ◌-ℤ◌, ◌+ℤ◌, abs}
use coin_listener.Prelude.Radix
use coin_listener.Prelude.Decimal.{decimal, hexadecimal, show_ℕ, show_ℤ}
use coin_listener.Prelude.Text.{
  Text, codes, text_eq, strip_prefix, to_lower, trim, starts_with, trim_end, trim_left, trim_right,
}
use coin_listener.Core.Error.{AppResult, ok, err, IsOk, AppError}
use coin_listener.Core.Models.{Asset, ScanAddressContext, AddressEvent}
use coin_listener.Storage.Outbox.Events.{
  conflicts, event_of_draft, insert_event_and_outbox_if_not_exists,
}
use coin_listener.Storage.ScanTables.{ScanTables, NewRows, read_cursor, insert_event, move_cursor}
use coin_listener.Storage.Cursors.{cursor_block, scan_cursor, upsert_scan_cursor}
use coin_listener.Chains.Evm.{address_to_topic, normalize_hex}
use coin_listener.Chains.Evm.Logs.{EvmLog, transfer_topic0}
use coin_listener.Worker.Cursors.{evm_transfer_scan_range}
use coin_listener.Storage.Catalog.{selected_assets_by_type}
use coin_listener.Core.Machine.{wrap_i64, saturating_add}
use coin_listener.Storage.Sql.Order.{order_by, insert_by}
use coin_listener.Worker.Ranges.{BlockRange}
use coin_listener.Worker.EvmScan.{
  EvmRpcClient, Libraries, evm_erc20_transfer_cursor, scan_evm_erc20_transfers, is_empty_list,
}
use coin_listener.Worker.EvmScan.Coverage.{IsWithin, IsScannedRange, Precedes}
use coin_listener.Worker.EvmScan.NoGap
use coin_listener.Worker.EvmScan.NoGap.{token_assets}
use coin_listener.Chains.Btc.{
  BtcTransaction, BtcTransactionPage, DecodedBtcTransfer, classify_btc_transaction,
  normalize_btc_address, checked_block_number, received_loop, validate_non_negative_sats,
  spent_loop, transfer_of, sats_to_decimal_string, address_txs_page_path, btc_transfer_event_draft,
  decode_btc_transaction_page, last_txid, spent_after, validate_btc_hash,
}
use coin_listener.Chains.Btc.Amounts
use coin_listener.Chains.Btc.Amounts.{IsNet, paid_to, prevouts}
use coin_listener.Worker.Paging.{is_provider_availability_error, ensure_provider_page_limit}
use coin_listener.Worker.Cursors.{btc_scan_from_block, max_of}
use coin_listener.Worker.BtcScan.{
  BtcClient, btc_transaction_cursor, address_transactions_page, scan_btc_transactions,
  scanned_transfers, block_number_of, pages_loop, should_process_btc_transaction_page, after_page,
  page_transfers, after_transfers, move_to, record_transfer, record_transfers,
}
use coin_listener.Worker.BtcScan.Pages.{Listed}
use coin_listener.Worker.BtcScan.Limit
use coin_listener.Worker.BtcScan.Limit.{HasPages, IsRefusal, last_page, next_page, page_limit_error}
use coin_listener.Worker.BtcScan.Complete
use coin_listener.Worker.BtcScan.Complete.{IsRecordedTransfer, raised_to}

abbrev context : ScanAddressContext
context = record {
  id = 7;
  tenant_id = 1;
  chain_id = 2;
  address = codes "0xabcdef0123456789abcdef0123456789abcdef01";
  scan_interval_seconds = pos 60;
  chain_type = codes "evm";
}

abbrev topic : Text
topic = codes "0x000000000000000000000000abcdef0123456789abcdef0123456789abcdef01"

abbrev token : Asset
token = record {
  id = 3;
  chain_id = 2;
  asset_type = codes "erc20";
  symbol = codes "USDT";
  name = codes "Tether";
  contract_address = some (codes "0x00000000000000000000000000000000000000aa");
  decimals = pos 6;
  is_builtin = false;
  status = codes "active";
}

-- Each new row is numbered by the rows before it.
abbrev rows : NewRows
rows = record {
  event_id = λ t. 100 + length t.events;
  outbox_id = λ t. 200 + length t.outbox;
  cursor_id = λ cs. 300 + length cs;
  snapshot_id = λ bs. 400 + length bs;
  clock = λ s. 5000;
}

-- The number libraries, on texts of digits.
abbrev libraries : Libraries
libraries = record {
  show_uuid = show_ℕ;
  biguint_error = λ raw. none;
  biguint_of_hex = λ digits. some (show_ℕ (Radix.read hexadecimal digits));
  bigint = λ raw. inr (pos (Radix.read decimal raw));
}

-- A transfer of 1.5 tokens to the address in block 500.
abbrev log : EvmLog
log = record {
  address = codes "0x00000000000000000000000000000000000000aa";
  topics =
      transfer_topic0
      ∷ codes "0x0000000000000000000000000000000000000000000000000000000000000b0b"
      ∷ topic
      ∷ [];
  data_text = codes "0x000000000000000000000000000000000000000000000000000000000016e360";
  transaction_hash =
      some (codes "0x00000000000000000000000000000000000000000000000000000000000000c1");
  log_index = some (codes "0x4");
  block_number = some (codes "0x1f4");
  block_hash = none;
}

abbrev rpc : EvmRpcClient
rpc = record {
  rpc_hex_result = λ method params. ok (codes "0x3ed");
  rpc_logs_result = λ params. ok (log ∷ []);
}

abbrev empty_tables : ScanTables
empty_tables = record {
  recorded = record { events = []; outbox = [] };
  cursors = [];
  snapshots = [];
}

abbrev evm_outcome : AppResult (List AddressEvent) × ScanTables
evm_outcome =
    scan_evm_erc20_transfers rows libraries context rpc (pos 1005) (pos 5) (token ∷ []) empty_tables

abbrev evm_cursor : ScanTables → Option ℤ
evm_cursor t = cursor_block 7 evm_erc20_transfer_cursor t.cursors

watched : address_to_topic context.address ≡ ok topic
unfolding address_to_topic normalize_hex strip_prefix to_lower
watched = refl

due :
    evm_transfer_scan_range
      (scan_cursor 7 evm_erc20_transfer_cursor empty_tables.cursors)
      (pos 1005)
      (pos 5)
    ≡ ok (some (pos 1, pos 1000))
unfolding evm_transfer_scan_range scan_cursor ◌-ℤ◌ ◌+ℤ◌ wrap_i64
due = refl

none_before : Precedes (evm_cursor empty_tables) (pos 1)
unfolding cursor_block scan_cursor
none_before = tt

some_token :
    is_empty_list
      (token_assets rows libraries context rpc (pos 1005) (pos 5) (token ∷ []) empty_tables)
    ≡ false
unfolding selected_assets_by_type order_by text_eq insert_by
some_token = refl

-- Height 1005 with 5 confirmations: blocks 1 to 1000 are due.
scan_evm_erc20_transfers-no_gap_example :
    ((end_block block : ℤ)
      → evm_cursor evm_outcome.1 ≡ some end_block
      → pos 1 ≤ℤ block
      → block ≤ℤ end_block
      → (r : BlockRange) × IsWithin block r
        × IsScannedRange rows libraries context rpc topic
            (token_assets rows libraries context rpc (pos 1005) (pos 5) (token ∷ []) empty_tables)
            evm_outcome.1
            r)
    × (IsOk evm_outcome.0 → evm_cursor evm_outcome.1 ≡ some (pos 1000))
scan_evm_erc20_transfers-no_gap_example =
    NoGap.scan_evm_erc20_transfers-no_gap rows libraries context rpc (pos 1005) (pos 5) (token ∷ [])
      empty_tables (pos 1) (pos 1000) topic due (omega arith) (omega arith) (omega arith)
      none_before some_token watched

abbrev btc_address : Text
btc_address = codes "1BoatSLRHtKNngkdXEeobR76b53LETtpyT"

abbrev txid : Text
txid = replicate 64 b'a'

-- 700 sats come in, of which 200 were the address's own.
abbrev btc_transaction : BtcTransaction
btc_transaction = record {
  txid = txid;
  status = record { confirmed = true; block_height = some (pos 840000); block_hash = none };
  vin =
      record {
        prevout = some (record { scriptpubkey_address = some btc_address; value = pos 200 });
      }
      ∷ [];
  vout =
      record { scriptpubkey_address = some btc_address; value = pos 700 }
      ∷ record { scriptpubkey_address = none; value = pos 50 }
      ∷ [];
}

abbrev btc_found : AppResult (Option DecodedBtcTransfer)
btc_found = classify_btc_transaction libraries.bigint btc_transaction btc_address

abbrev value_of : AppResult (Option DecodedBtcTransfer) → Option DecodedBtcTransfer
value_of (err e) = none
value_of (ok found) = found

classified : btc_found ≡ ok (value_of btc_found)
unfolding classify_btc_transaction normalize_btc_address trim starts_with checked_block_number
    received_loop validate_non_negative_sats spent_loop transfer_of text_eq ◌+ℤ◌
    sats_to_decimal_string Radix.read show_ℤ abs ◌-ℤ◌
classified = refl

classify_btc_transaction-IsNet_example :
    (watched : Text) × (normalize_btc_address btc_address ≡ ok watched)
    × IsNet
        (paid_to watched btc_transaction.vout)
        (paid_to watched (prevouts btc_transaction.vin))
        (value_of btc_found)
classify_btc_transaction-IsNet_example =
    Amounts.classify_btc_transaction-IsNet libraries.bigint btc_transaction btc_address
      (value_of btc_found) classified

-- A provider that answers the same page for ever.
abbrev endless : BtcClient
endless = record {
  get_balance = λ path. ok (record { balance_raw = codes "0"; balance_decimal = codes "0.0" });
  get_transactions = λ path. ok (btc_transaction ∷ []);
}

abbrev btc_context : ScanAddressContext
btc_context = record context { address = btc_address; chain_type = codes "utxo" }

abbrev full_page : BtcTransactionPage
full_page = record { transactions = btc_transaction ∷ []; next_last_seen_txid = some txid }

first_page : address_transactions_page endless btc_address none ≡ ok full_page
unfolding address_transactions_page trim starts_with
first_page = refl

other_page : address_transactions_page endless btc_address (some txid) ≡ ok full_page
unfolding address_transactions_page trim starts_with
other_page = refl

pages_after : (more : ℕ) → HasPages libraries.bigint endless btc_address more (some txid)
pages_after zero = last_page (other_page, refl)
pages_after (suc more) = next_page txid (other_page, refl) refl (pages_after more)

scan_btc_transactions-page_limit_example :
    (e : AppError) × (scan_btc_transactions rows libraries.bigint btc_context endless token
        empty_tables
      ≡ (err e, empty_tables))
    × IsRefusal libraries.bigint endless btc_address e
    × (is_provider_availability_error page_limit_error ≡ false)
scan_btc_transactions-page_limit_example =
    Limit.scan_btc_transactions-page_limit rows libraries.bigint btc_context endless token
      empty_tables (next_page txid (first_page, refl) refl (pages_after 9))

-- A provider with one page: after its last transaction there are no more.
abbrev one_page : BtcClient
one_page = record endless {
  get_transactions = λ path.
      if text_eq path (codes "/address/" ++ btc_address ++ codes "/txs/chain")
      then ok (btc_transaction ∷ [])
      else ok [];
}

abbrev btc_outcome : AppResult (List AddressEvent) × ScanTables
btc_outcome = scan_btc_transactions rows libraries.bigint btc_context one_page token empty_tables

abbrev events_of : AppResult (List AddressEvent) → List AddressEvent
events_of (err e) = []
events_of (ok events) = events

btc_returns : btc_outcome ≡ (ok (events_of btc_outcome.0), btc_outcome.1)
unfolding scan_btc_transactions text_eq read_cursor scanned_transfers pages_loop
    address_transactions_page trim starts_with should_process_btc_transaction_page after_page
    page_transfers classify_btc_transaction checked_block_number received_loop
    validate_non_negative_sats spent_loop transfer_of ◌+ℤ◌ sats_to_decimal_string
    address_txs_page_path btc_transfer_event_draft decode_btc_transaction_page last_txid
    normalize_btc_address spent_after validate_btc_hash fraction_text pad with_point for_each
    saturating_add show_ℕ show_ℤ abs ◌-ℤ◌ Radix.print Radix.print_loop Radix.read Radix.read_from
    trim_end trim_left trim_right scan_cursor upsert_scan_cursor conflicts event_of_draft
    insert_event_and_outbox_if_not_exists insert_notification_outbox_for_event new_outbox_item
    insert_event move_cursor upsert update_where after_transfers move_to record_transfer
    record_transfers btc_scan_from_block max_of ensure_provider_page_limit
btc_returns = refl

abbrev first_block : ℤ
first_block = btc_scan_from_block (scan_cursor 7 btc_transaction_cursor empty_tables.cursors)

scan_btc_transactions_complete_example :
    ((tx : BtcTransaction)
      → Listed libraries.bigint one_page btc_address first_block tx none
      → (found : Option DecodedBtcTransfer) × (classify_btc_transaction libraries.bigint tx
            btc_address
          ≡ ok found)
        × ((d : DecodedBtcTransfer)
            → found ≡ some d
            → ltb_ℤ d.block_number first_block ≡ false
            → IsRecordedTransfer rows btc_context token d btc_outcome.1))
    × ((transfers : List DecodedBtcTransfer) × (scanned_transfers libraries.bigint one_page
            btc_address first_block
          ≡ ok transfers)
        × (cursor_block 7 btc_transaction_cursor btc_outcome.1.cursors
            ≡ raised_to rows btc_context token
                (cursor_block 7 btc_transaction_cursor empty_tables.cursors)
                (max_of (map block_number_of transfers))))
scan_btc_transactions_complete_example =
    Complete.scan_btc_transactions_complete rows btc_context token libraries.bigint one_page
      empty_tables btc_outcome.1 (events_of btc_outcome.0) btc_returns
