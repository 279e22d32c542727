-- ===== src/Worker/BtcScan/Limit.antt =====
-- An address whose transactions fill more than ten pages.
use coin_listener.Prelude.{
  ℕ, zero, suc, ◌+◌, ◌≡◌, refl, true, false, List, [], ◌∷◌, ◌++◌, Option, none, some, length, ◌==◌,
  leb, arith, ◌⊎◌, inl, inr, IsIn, tail, head,
}
use coin_listener.Prelude.Int.{ℤ}
use coin_listener.Prelude.Text.{Text, codes, contains}
use coin_listener.Prelude.Decimal.{show_ℕ}
use coin_listener.Core.Error.{AppError, AppResult, ok, err, config}
use coin_listener.Core.Error
use coin_listener.Worker.Cursors.{btc_scan_from_block}
use coin_listener.Storage.Cursors.{scan_cursor}
use coin_listener.Worker.BtcScan.{btc_transaction_cursor}
use coin_listener.Core.Models.{Asset, ScanAddressContext}
use coin_listener.Storage.ScanTables.{ScanTables, NewRows, read_cursor}
use coin_listener.Chains.Btc.{
  BtcTransaction, BtcTransactionPage, DecodedBtcTransfer, classify_btc_transaction,
}
use coin_listener.Worker.Paging.{
  ensure_provider_page_limit, max_provider_pages_per_scan, is_provider_availability_error,
}
use coin_listener.Worker.BtcScan.{
  BtcClient, address_transactions_page, should_process_btc_transaction_page, page_transfers, kept,
  after_transfers, after_page, pages_loop, scanned_transfers, scan_btc_transactions,
}

abbrev pub page_limit_error : AppError
page_limit_error = config (
    codes "BTC address transactions"
    ++ codes " pagination exceeded max page limit "
    ++ show_ℕ max_provider_pages_per_scan)

module _ (bigint : Text → Text ⊎ ℤ) (client : BtcClient) (address : Text) where
  abbrev IsFull : Option Text → BtcTransactionPage → Type 0
  IsFull next page =
      (address_transactions_page client address next ≡ ok page)
      × ((length page.transactions == 0) ≡ false)

  -- Pages with transactions from the one at `next`: it, and `more` pages after it.
  pub data HasPages : ℕ → Option Text → Type 0 where
    last_page :
        {next : Option Text} {page : BtcTransactionPage} → IsFull next page → HasPages 0 next
    next_page :
        {more : ℕ} {next : Option Text} {page : BtcTransactionPage} (last : Text)
        → IsFull next page
        → page.next_last_seen_txid ≡ some last
        → HasPages more (some last)
        → HasPages (suc more) next

  abbrev IsRejection : List BtcTransaction → AppError → Type 0
  IsRejection txs e =
      (tx : BtcTransaction) × IsIn tx txs × (classify_btc_transaction bigint tx address ≡ err e)

  -- The error says that the pages are too many, or it rejects a transaction of one of them.
  abbrev pub IsRefusal : AppError → Type 0
  IsRefusal e =
      (e ≡ page_limit_error)
      ⊎ ((next : Option Text) × (page : BtcTransactionPage) × (address_transactions_page client
              address next
            ≡ ok page)
          × IsRejection page.transactions e)

  abbrev IsRead : List BtcTransaction → AppResult (List DecodedBtcTransfer) → Type 0
  IsRead txs (err e) = IsRejection txs e
  IsRead txs (ok out) = Unit

  abbrev IsTried : AppResult (List DecodedBtcTransfer) → Type 0
  IsTried (err e) = IsRefusal e
  IsTried (ok out) = Unit

  abbrev IsRefused : AppResult (List DecodedBtcTransfer) → Type 0
  IsRefused (err e) = IsRefusal e
  IsRefused (ok out) = ⊥

  IsTried-of_page :
      (next : Option Text) (page : BtcTransactionPage) (r : AppResult (List DecodedBtcTransfer))
      → address_transactions_page client address next ≡ ok page
      → IsRead page.transactions r
      → IsTried r
  IsTried-of_page next page (err e) p h = inr (next, page, p, h)
  IsTried-of_page next page (ok out) p h = tt

  kept_and :
      (found : Option DecodedBtcTransfer) (from_block : ℤ) (tx : BtcTransaction)
      (txs : List BtcTransaction) (r : AppResult (List DecodedBtcTransfer))
      → IsRead txs r
      → IsRead
          (tx ∷ txs)
          (Error.◌>>=◌ r λ rest. ok (kept bigint client address from_block found ++ rest))
  kept_and found from_block tx txs (err e) (t, m, c) = (t, tail m, c)
  kept_and found from_block tx txs (ok out) h = tt

  page_transfers-IsRead :
      (from_block : ℤ) (txs : List BtcTransaction)
      → IsRead txs (page_transfers bigint client address from_block txs)
  unfolding page_transfers
  page_transfers-IsRead from_block [] = tt
  page_transfers-IsRead from_block (tx ∷ txs) =
      classified (classify_btc_transaction bigint tx address) refl
        (page_transfers-IsRead from_block txs)
    where
      classified :
          (r : AppResult (Option DecodedBtcTransfer))
          → classify_btc_transaction bigint tx address ≡ r
          → IsRead txs (page_transfers bigint client address from_block txs)
          → IsRead (tx ∷ txs) (
              Error.◌>>=◌ r λ found.
                Error.◌>>=◌
                  (page_transfers bigint client address from_block txs)
                  λ rest. ok (kept bigint client address from_block found ++ rest))
      classified (err e) c h = (tx, head, c)
      classified (ok found) c h =
          kept_and found from_block tx txs (page_transfers bigint client address from_block txs) h

  over_limit :
      (processed count : ℕ)
      → (count == 0) ≡ false
      → processed ≡ max_provider_pages_per_scan
      → should_process_btc_transaction_page processed count ≡ err page_limit_error
  unfolding should_process_btc_transaction_page ensure_provider_page_limit
  over_limit processed count n e = rw (e, n) refl

  under_limit :
      (processed count more : ℕ)
      → (count == 0) ≡ false
      → processed + suc more ≡ max_provider_pages_per_scan
      → should_process_btc_transaction_page processed count ≡ ok true
  unfolding should_process_btc_transaction_page ensure_provider_page_limit
  under_limit processed count more n e = rw (n, below processed more e) refl
    where
      below :
          (p m : ℕ)
          → p + suc m ≡ max_provider_pages_per_scan
          → leb max_provider_pages_per_scan p ≡ false
      below p m h = ground arith

  -- A page is read, and the rest of the loop is refused.
  after_page-IsRefused :
      (from_block : ℤ) (go_on : Option Text → AppResult (List DecodedBtcTransfer)) (last : Text)
      (r : AppResult (List DecodedBtcTransfer))
      → IsTried r
      → IsRefused (go_on (some last))
      → IsRefused (
          Error.◌>>=◌ r λ transfers.
            after_transfers bigint client address from_block go_on transfers (some last))
  unfolding after_transfers
  after_page-IsRefused from_block go_on last (err e) t h = t
  after_page-IsRefused from_block go_on last (ok out) t h = rest (go_on (some last)) h
    where
      rest :
          (q : AppResult (List DecodedBtcTransfer))
          → IsRefused q
          → IsRefused (Error.◌>>=◌ q λ more. ok (out ++ more))
      rest (err e) g = g
      rest (ok more) g = absurd g

  pages_loop-IsRefused :
      (from_block : ℤ) (more processed : ℕ) (next : Option Text)
      → processed + more ≡ max_provider_pages_per_scan
      → HasPages more next
      → IsRefused (pages_loop bigint client address from_block (suc more) processed next)
  unfolding pages_loop after_page
  pages_loop-IsRefused from_block zero processed next b (last_page {page = page} (p, n)) =
      rw p (rw (over_limit processed (length page.transactions) n (omega arith)) (inl refl))
  pages_loop-IsRefused from_block (suc more) processed next b
        (next_page {page = page} last (p, n) l rest) =
      rw p (
        rw (under_limit processed (length page.transactions) more n b) (
          rw l (
            after_page-IsRefused from_block
              (pages_loop bigint client address from_block (suc more) (processed + 1)) last
              (page_transfers bigint client address from_block page.transactions)
              (IsTried-of_page next page
                (page_transfers bigint client address from_block page.transactions) p
                (page_transfers-IsRead from_block page.transactions))
              (pages_loop-IsRefused from_block more (processed + 1) (some last) (omega arith)
                rest))))

-- An address with eleven pages of transactions or more is never scanned: whatever its cursor, the
-- scan of its transactions fails and leaves the tables, the cursor among them, as they were. The
-- error is that of the page limit, which does not try another provider, unless a transaction of one
-- of its pages is rejected before the limit is met: then it is the error of that transaction.
pub scan_btc_transactions-page_limit :
    (rows : NewRows) (bigint : Text → Text ⊎ ℤ) (context : ScanAddressContext) (client : BtcClient)
    (native_asset : Asset) (s : ScanTables)
    → HasPages bigint client context.address max_provider_pages_per_scan none
    → (e : AppError) × (scan_btc_transactions rows bigint context client native_asset s
        ≡ (err e, s))
      × IsRefusal bigint client context.address e
      × (is_provider_availability_error page_limit_error ≡ false)
unfolding scan_btc_transactions scanned_transfers read_cursor is_provider_availability_error
    contains show_ℕ
scan_btc_transactions-page_limit rows bigint context client native_asset s pages =
    refused (scanned_transfers bigint client context.address first_block) refl (
      pages_loop-IsRefused bigint client context.address first_block max_provider_pages_per_scan 0
        none refl pages)
  where
    first_block : ℤ
    first_block = btc_scan_from_block (scan_cursor context.id btc_transaction_cursor s.cursors)

    refused :
        (r : AppResult (List DecodedBtcTransfer))
        → scanned_transfers bigint client context.address first_block ≡ r
        → IsRefused bigint client context.address r
        → (e : AppError) × (scan_btc_transactions rows bigint context client native_asset s
            ≡ (err e, s))
          × IsRefusal bigint client context.address e
          × (is_provider_availability_error page_limit_error ≡ false)
    refused (err e) q h = (e, rw q refl, h, refl)
    refused (ok out) q h = absurd h
