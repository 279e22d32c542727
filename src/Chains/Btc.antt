-- ===== src/Chains/Btc.antt =====
-- backend/crates/chain-providers/src/btc.rs: addresses, paths, balances and transactions of the
-- Esplora API, and the transfers that they make for a watched address.
--
-- `bigint` is `BigInt::from_str`, with the text of its error; a `BigInt` is an integer.
pub mod Amounts
use mathlib.Core.Option
use coin_listener.Prelude.{
  ℕ, Bool, true, false, ◌&&◌, ◌||◌, not, List, [], ◌∷◌, ◌++◌, Option, none, some, if◌then◌else◌,
  leb, ◌==◌, length, all, take, drop, ◌-◌, ◌⊎◌, inl, inr,
}
use coin_listener.Prelude.Int.{ℤ, pos, negsuc, ◌+ℤ◌, ◌-ℤ◌, ltb_ℤ, abs}
use coin_listener.Prelude.Text.{
  Text, codes, starts_with, is_alphanumeric, is_hex_digit, text_eq, trim,
}
use coin_listener.Prelude.Decimal.{show_ℤ}
use coin_listener.Prelude.Json.{Json, Fields, null, number, string, object, field, end}
use coin_listener.Core.Error.{AppError, AppResult, ok, err, validation, ◌>>=◌, ◌>>◌, ensure}
use coin_listener.Core.Machine.{eq_ℤ}
use coin_listener.Core.Models.{Asset, ScanAddressContext, AddressEventDraft}
use coin_listener.Chains.Units.{pad, with_point}

pub record BtcBalance : Type 0 where
  pub balance_raw : Text
  pub balance_decimal : Text

pub record BtcVout : Type 0 where
  pub scriptpubkey_address : Option Text
  pub value : ℤ

pub record BtcVin : Type 0 where
  pub prevout : Option BtcVout

pub record BtcTxStatus : Type 0 where
  pub confirmed : Bool
  pub block_height : Option ℤ
  pub block_hash : Option Text

pub record BtcTransaction : Type 0 where
  pub txid : Text
  pub status : BtcTxStatus
  pub vin : List BtcVin
  pub vout : List BtcVout

pub record BtcTransactionPage : Type 0 where
  pub transactions : List BtcTransaction
  pub next_last_seen_txid : Option Text

pub record DecodedBtcTransfer : Type 0 where
  pub tx_hash : Text
  pub block_number : ℤ
  pub block_hash : Option Text
  pub direction : Text
  pub amount_raw : Text
  pub amount_decimal : Text
  pub received_raw : Text
  pub spent_raw : Text

unfoldable pub normalize_btc_address : Text → AppResult Text
normalize_btc_address given =
    let address = trim given in
    let has_supported_prefix =
      starts_with (codes "bc1") address
      || starts_with (codes "tb1") address
      || starts_with (codes "1") address
      || starts_with (codes "3") address in
    let has_valid_shape =
      leb 14 (length address)
      && leb (length address) 90
      && has_supported_prefix
      && all is_alphanumeric address in
    if has_valid_shape
    then ok address
    else err (validation (codes "invalid btc address " ++ address))

unfoldable pub validate_btc_hash : Text → Text → AppResult (Unit {0})
validate_btc_hash value field_name =
    ensure (length value == 64 && all is_hex_digit value)
      (validation (codes "invalid btc transaction " ++ field_name ++ codes " " ++ value))

unfoldable pub validate_non_negative_sats : ℤ → Text → AppResult (Unit {0})
validate_non_negative_sats value field_name = ensure (not (ltb_ℤ value (pos 0))) (
    validation (
      codes "invalid btc transaction "
      ++ field_name
      ++ codes " "
      ++ show_ℤ value
      ++ codes ": must be non-negative"))

unfoldable pub address_path : Text → AppResult Text
unfolding normalize_btc_address
address_path address = do address ← normalize_btc_address address; ok (codes "/address/" ++ address)

abbrev page_path : Text → Option Text → AppResult Text
page_path address none = ok (codes "/address/" ++ address ++ codes "/txs/chain")
page_path address (some txid) = do
  validate_btc_hash txid (codes "last_seen_txid")
  ok (codes "/address/" ++ address ++ codes "/txs/chain/" ++ txid)

unfoldable pub address_txs_page_path : Text → Option Text → AppResult Text
unfolding normalize_btc_address validate_btc_hash
address_txs_page_path address last_seen_txid = do
  address ← normalize_btc_address address
  page_path address last_seen_txid

-- `transactions.last()`
unfoldable pub last_txid : List BtcTransaction → Option Text
last_txid [] = none
last_txid (tx ∷ []) = some tx.txid
last_txid (tx ∷ next ∷ txs) = last_txid (next ∷ txs)

abbrev check_last : Option Text → AppResult (Unit {0})
check_last none = ok tt
check_last (some txid) = validate_btc_hash txid (codes "last_seen_txid")

-- On the transactions that the JSON of the answer lists.
unfoldable pub decode_btc_transaction_page : List BtcTransaction → AppResult BtcTransactionPage
unfolding last_txid validate_btc_hash
decode_btc_transaction_page transactions = do
  check_last (last_txid transactions)
  ok (record { transactions = transactions; next_last_seen_txid = last_txid transactions })

-- `as_deref() == Some(watched_address)`
abbrev pub pays_to : Text → BtcVout → Bool
pays_to watched v = elim v.scriptpubkey_address [
  | none ↦ false
  | some address ↦ text_eq address watched
]

-- The loop over the outputs, on what was received so far.
unfoldable pub received_loop : Text → List BtcVout → ℤ → AppResult ℤ
received_loop watched [] received = ok received
received_loop watched (output ∷ outputs) received = do
  validate_non_negative_sats output.value (codes "vout.value")
  received_loop watched outputs
      (if pays_to watched output then received +ℤ output.value else received)

-- The body of the loop over the inputs; one with no `prevout` is passed over.
unfoldable pub spent_after : Text → Option BtcVout → ℤ → AppResult ℤ
spent_after watched none spent = ok spent
spent_after watched (some prevout) spent = do
  validate_non_negative_sats prevout.value (codes "vin.prevout.value")
  ok (if pays_to watched prevout then spent +ℤ prevout.value else spent)

unfoldable pub spent_loop : Text → List BtcVin → ℤ → AppResult ℤ
unfolding spent_after
spent_loop watched [] spent = ok spent
spent_loop watched (input ∷ inputs) spent = do
  spent ← spent_after watched input.prevout spent
  spent_loop watched inputs spent

abbrev pub direction_of : ℤ → Text
direction_of delta =
    if ltb_ℤ (pos 0) delta
    then codes "in"
    else if ltb_ℤ delta (pos 0)
    then codes "out"
    else codes "self"

abbrev height : Option ℤ → AppResult ℤ
height none = err (validation (codes "invalid btc transaction: missing block_height"))
height (some block_number) = ok block_number

abbrev check_block : Option Text → AppResult (Unit {0})
check_block none = ok tt
check_block (some block_hash) = validate_btc_hash block_hash (codes "block_hash")

abbrev pub net_transfer : BtcTransaction → ℤ → ℤ → ℤ → Text → DecodedBtcTransfer
net_transfer tx block_number received spent amount_decimal = record {
  tx_hash = tx.txid;
  block_number = block_number;
  block_hash = tx.status.block_hash;
  direction = direction_of (received -ℤ spent);
  amount_raw = show_ℤ (abs (received -ℤ spent));
  amount_decimal = amount_decimal;
  received_raw = show_ℤ received;
  spent_raw = show_ℤ spent;
}

-- The checks on the status and the hashes, and the block that they accept.
unfoldable pub checked_block_number : BtcTransaction → AppResult ℤ
unfolding validate_btc_hash
checked_block_number tx = do
  ensure tx.status.confirmed
      (validation (codes "invalid btc transaction: status.confirmed must be true"))
  block_number ← height tx.status.block_height
  ensure (not (ltb_ℤ block_number (pos 0))) (
      validation (
        codes "invalid btc transaction block_height "
        ++ show_ℤ block_number
        ++ codes ": must be non-negative"))
  validate_btc_hash tx.txid (codes "txid")
  check_block tx.status.block_hash
  ok block_number

module _ (bigint : Text → Text ⊎ ℤ) where
  abbrev parsed_amount : Text → Text ⊎ ℤ → AppResult ℤ
  parsed_amount raw (inl e) =
      err (validation (codes "invalid btc amount " ++ raw ++ codes ": " ++ e))
  parsed_amount raw (inr value) = ok value

  -- `sats_to_decimal_string`, the number of decimals being 8.
  unfoldable pub sats_to_decimal_string : Text → AppResult Text
  sats_to_decimal_string raw = do
    let raw = trim raw
    parsed ← parsed_amount raw (bigint raw)
    ensure (not (ltb_ℤ parsed (pos 0)))
        (validation (codes "invalid btc amount " ++ raw ++ codes ": must be non-negative"))
    ok (with_point (pad (show_ℤ parsed) 8) 8)

  -- The transfer of what was received and spent.
  unfoldable pub transfer_of : BtcTransaction → ℤ → ℤ → ℤ → AppResult (Option DecodedBtcTransfer)
  transfer_of tx block_number received spent =
      if eq_ℤ received (pos 0) && eq_ℤ spent (pos 0) then ok none else (do
        amount_decimal ← sats_to_decimal_string (show_ℤ (abs (received -ℤ spent)))
        ok (some (net_transfer tx block_number received spent amount_decimal)))

  unfoldable pub classify_btc_transaction :
      BtcTransaction → Text → AppResult (Option DecodedBtcTransfer)
  classify_btc_transaction tx watched_address = do
    watched ← normalize_btc_address watched_address
    block_number ← checked_block_number tx
    received ← received_loop watched tx.vout (pos 0)
    spent ← spent_loop watched tx.vin (pos 0)
    transfer_of tx block_number received spent

unfoldable pub btc_transfer_event_draft :
    ScanAddressContext → Asset → DecodedBtcTransfer → AddressEventDraft
btc_transfer_event_draft context asset transfer = record {
  tenant_id = context.tenant_id;
  chain_id = context.chain_id;
  address_id = context.id;
  asset_id = asset.id;
  event_type = codes "transfer";
  direction = transfer.direction;
  is_transfer = true;
  tx_hash = some transfer.tx_hash;
  log_index = none;
  block_number = some transfer.block_number;
  block_hash = transfer.block_hash;
  confirmations = pos 0;
  from_address = none;
  to_address = none;
  amount_raw = some transfer.amount_raw;
  amount_decimal = some transfer.amount_decimal;
  balance_before_raw = none;
  balance_after_raw = none;
  balance_delta_raw = none;
  metadata = object (
      field (codes "source") (string (codes "btc_transaction")) (
        field (codes "received_raw") (string transfer.received_raw)
          (field (codes "spent_raw") (string transfer.spent_raw) end)));
}
