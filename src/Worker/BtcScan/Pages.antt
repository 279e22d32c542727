-- ===== src/Worker/BtcScan/Pages.antt =====
-- The pages of an address's transactions, and what a loop over them that ends has read.
use coin_listener.Prelude.{
  ℕ, zero, suc, ◌+◌, ◌≡◌, Bool, true, false, List, [], ◌∷◌, ◌++◌, Option, none, some, length, ◌==◌,
  leb, arith, IsIn, head, tail, Bool-cases, inl, inr, ap, sym, ◌⊎◌, eq_of_some, none-ne-some, ◌<◌,
  ◌∙◌,
}
use mathlib.Core.Path.{subst}
use mathlib.Core.List.{append-nil}
use coin_listener.Prelude.Int.{ℤ, ltb_ℤ}
use coin_listener.Prelude.Text.{Text}
use coin_listener.Core.Error.{AppResult, ok, >>=-eq-ok, err-ne-ok, eq_of_ok}
use coin_listener.Storage.Sql.{IsIn-cases, IsIn-append}
use coin_listener.Chains.Btc.{
  BtcTransaction, BtcTransactionPage, DecodedBtcTransfer, classify_btc_transaction,
}
use coin_listener.Worker.Paging.{ensure_provider_page_limit, max_provider_pages_per_scan}
use coin_listener.Worker.BtcScan.{
  BtcClient, address_transactions_page, should_process_btc_transaction_page, kept, page_transfers,
  after_transfers, after_page, pages_loop,
}

IsIn-append_right : {A : Type 0} {a : A} (xs : List A) {ys : List A} → IsIn a ys → IsIn a (xs ++ ys)
IsIn-append_right [] m = m
IsIn-append_right (x ∷ xs) m = tail (IsIn-append_right xs m)

module _ (bigint : Text → Text ⊎ ℤ) (client : BtcClient) (address : Text) (from_block : ℤ) where
  abbrev page_at : Option Text → AppResult BtcTransactionPage
  page_at next = address_transactions_page client address next

  abbrev transfers_of : List BtcTransaction → AppResult (List DecodedBtcTransfer)
  transfers_of = page_transfers bigint client address from_block

  -- The transaction is on the page at `next`, or on one of those that follow it.
  pub data Listed (tx : BtcTransaction) : Option Text → Type 0 where
    here :
        {next : Option Text} {page : BtcTransactionPage}
        → page_at next ≡ ok page
        → IsIn tx page.transactions
        → Listed tx next
    later :
        {next : Option Text} {page : BtcTransactionPage} (last : Text)
        → page_at next ≡ ok page
        → (length page.transactions == 0) ≡ false
        → page.next_last_seen_txid ≡ some last
        → Listed tx (some last)
        → Listed tx next

  -- What a scan makes of a transaction: nothing, or a transfer below the first block, or one of the
  -- transfers.
  abbrev pub IsRead : List DecodedBtcTransfer → BtcTransaction → Type 0
  IsRead transfers tx =
      (found : Option DecodedBtcTransfer) × (classify_btc_transaction bigint tx address ≡ ok found)
      × ((d : DecodedBtcTransfer)
          → found ≡ some d
          → ltb_ℤ d.block_number from_block ≡ false
          → IsIn d transfers)

  page_transfers-IsRead :
      (txs : List BtcTransaction) (out : List DecodedBtcTransfer) {tx : BtcTransaction}
      → transfers_of txs ≡ ok out
      → IsIn tx txs
      → IsRead out tx
  unfolding page_transfers
  page_transfers-IsRead [] out h m = elim m [ ]
  page_transfers-IsRead (t ∷ txs) out {tx = tx} h m =
      let (found, c, g) = >>=-eq-ok (classify_btc_transaction bigint t address) _ h in
      let (rest, r, e) = >>=-eq-ok (transfers_of txs) _ g in
      elim (IsIn-cases m) [
        | inl first ↦ (
          found,
          rw first c,
          λ d at_d above.
              subst (IsIn d) (eq_of_ok e) (IsIn-append rest (kept_in found d at_d above)),
        )
        | inr n ↦
            let (f, k, into) = page_transfers-IsRead txs rest r n in
            (
              f,
              k,
              λ d at_d above. subst (IsIn d) (eq_of_ok e) (
                  IsIn-append_right (kept bigint client address from_block found)
                    (into d at_d above)),
            )
      ]
    where
      kept_in :
          (found : Option DecodedBtcTransfer) (d : DecodedBtcTransfer)
          → found ≡ some d
          → ltb_ℤ d.block_number from_block ≡ false
          → IsIn d (kept bigint client address from_block found)
      kept_in none d e above = absurd (none-ne-some e)
      kept_in (some t) d e above = rw (eq_of_some e) (rw above head)

  IsIn-nonempty :
      {tx : BtcTransaction} {txs : List BtcTransaction} → IsIn tx txs → (length txs == 0) ≡ false
  IsIn-nonempty {txs = []} m = elim m [ ]
  IsIn-nonempty {txs = x ∷ xs} m = ground arith

  -- A page that is processed leaves rounds for the one after it.
  should_process-lem :
      (processed count : ℕ) (more : Bool)
      → (count == 0) ≡ false
      → should_process_btc_transaction_page processed count ≡ ok more
      → (more ≡ true) × (processed < max_provider_pages_per_scan)
  unfolding should_process_btc_transaction_page ensure_provider_page_limit
  should_process-lem processed count more e h =
      elim (Bool-cases (leb max_provider_pages_per_scan processed)) [
        | inl over ↦ absurd (err-ne-ok (rw (e, over) at h))
        | inr under ↦ (sym (eq_of_ok (rw (e, under) at h)), ground arith)
      ]

  abbrev loop : ℕ → ℕ → Option Text → AppResult (List DecodedBtcTransfer)
  loop = pages_loop bigint client address from_block

  after_transfers-ok :
      (fuel processed : ℕ) (transfers out : List DecodedBtcTransfer) (next : Option Text)
      → after_transfers bigint client address from_block (loop fuel processed) transfers next
        ≡ ok out
      → (rest : List DecodedBtcTransfer) × (out ≡ transfers ++ rest)
        × ((last : Text) → next ≡ some last → loop fuel processed (some last) ≡ ok rest)
  unfolding after_transfers
  after_transfers-ok fuel processed transfers out none h =
      ([], sym (eq_of_ok h) ∙ sym (append-nil transfers), λ last e. absurd (none-ne-some e))
  after_transfers-ok fuel processed transfers out (some next) h =
      let (rest, r, e) = >>=-eq-ok (loop fuel processed (some next)) _ h in
      (
        rest,
        sym (eq_of_ok e),
        λ last n. ap (λ x. loop fuel processed (some x)) (sym (eq_of_some n)) ∙ r,
      )

  -- A round over a page that is not empty: what it reads, and that the loop goes on after it.
  round :
      (fuel processed : ℕ) (next : Option Text) (page : BtcTransactionPage)
      (out : List DecodedBtcTransfer)
      → loop (suc fuel) processed next ≡ ok out
      → page_at next ≡ ok page
      → (length page.transactions == 0) ≡ false
      → (processed < max_provider_pages_per_scan)
        × ((transfers : List DecodedBtcTransfer) × (rest : List DecodedBtcTransfer) × (transfers_of
                page.transactions
              ≡ ok transfers)
            × (out ≡ transfers ++ rest)
            × ((last : Text)
                → page.next_last_seen_txid ≡ some last
                → loop fuel (processed + 1) (some last) ≡ ok rest))
  unfolding pages_loop after_page
  round fuel processed next page out h p n =
      let (more, s, g) =
        >>=-eq-ok (should_process_btc_transaction_page processed (length page.transactions)) _
          (rw p at h) in
      let (yes', under) = should_process-lem processed (length page.transactions) more n s in
      let (transfers, t, g) = >>=-eq-ok (transfers_of page.transactions) _ (rw yes' at g) in
      let (rest, e, go) =
        after_transfers-ok fuel (processed + 1) transfers out page.next_last_seen_txid g in
      (under, (transfers, rest, t, e, go))

  -- A loop that ends within its rounds has read every transaction of the pages.
  pub pages_loop-IsRead :
      (fuel processed : ℕ) (next : Option Text) (out : List DecodedBtcTransfer)
      (tx : BtcTransaction)
      → processed + fuel ≡ max_provider_pages_per_scan + 1
      → 0 < fuel
      → loop fuel processed next ≡ ok out
      → Listed tx next
      → IsRead out tx
  pages_loop-IsRead zero processed next out tx b pos' h m = absurd (omega arith)
  pages_loop-IsRead (suc fuel) processed next out tx b pos' h (here {page = page} p m) =
      let (under, (transfers, rest, t, e, go)) =
        round fuel processed next page out h p (IsIn-nonempty m) in
      let (found, c, into) = page_transfers-IsRead page.transactions transfers t m in
      (found, c, λ d at_d above. rw e (IsIn-append rest (into d at_d above)))
  pages_loop-IsRead (suc fuel) processed next out tx b pos' h (later {page = page} last p n l m) =
      let (under, (transfers, rest, t, e, go)) = round fuel processed next page out h p n in
      let (found, c, into) =
        pages_loop-IsRead fuel (processed + 1) (some last) rest tx (omega arith) (omega arith)
          (go last l) m in
      (found, c, λ d at_d above. rw e (IsIn-append_right transfers (into d at_d above)))
