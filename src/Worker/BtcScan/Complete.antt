-- ===== src/Worker/BtcScan/Complete.antt =====
-- A scan of transactions that returns has recorded every transfer from the cursor on.
use coin_listener.Prelude.{
  ◌≡◌, refl, false, List, [], ◌∷◌, Option, none, some, All, map, arith, ap, ◌∙◌, ◌⊎◌, ◌+◌,
}
use mathlib.Core.Path.{subst}
use coin_listener.Prelude.Int.{ℤ, ltb_ℤ}
use coin_listener.Prelude.Text.{Text}
use coin_listener.Core.Error.{err-ne-ok, AppResult, ok, err}
use coin_listener.Core.Action.{pure, bind_result, for_each}
use coin_listener.Core.Action.Outcomes.{Outcome, for_each-Outcome}
use coin_listener.Core.Models.{Asset, ScanAddressContext, AddressEvent}
use coin_listener.Storage.Sql.{All-IsIn}
use coin_listener.Storage.Cursors.{scan_cursor, cursor_block, cursor_block-upsert, raised}
use coin_listener.Storage.ScanTables.{ScanTables, NewRows, insert_event, move_cursor, read_cursor}
use coin_listener.Chains.Btc.{
  BtcTransaction, DecodedBtcTransfer, classify_btc_transaction, btc_transfer_event_draft,
}
use coin_listener.Worker.Cursors.{btc_scan_from_block, max_of}
use coin_listener.Worker.Paging.{max_provider_pages_per_scan}
use coin_listener.Worker.BtcScan.{
  BtcClient, btc_transaction_cursor, record_transfer, record_transfers, move_to, block_number_of,
  scanned_transfers, scan_btc_transactions,
}
use coin_listener.Worker.BtcScan.Pages.{Listed, pages_loop-IsRead}
use coin_listener.Storage.ScanTables.Recorded.{
  IsRecorded, Keeps, KeepsEvents, Keeps-refl, Keeps-trans, insert_event-lem,
}

module _ (rows : NewRows) (context : ScanAddressContext) (native_asset : Asset) where
  abbrev pub IsRecordedTransfer : DecodedBtcTransfer → ScanTables → Type 0
  IsRecordedTransfer d s = IsRecorded (btc_transfer_event_draft context native_asset d) s

  abbrev cursor_of : ScanTables → Option ℤ
  cursor_of s = cursor_block context.id btc_transaction_cursor s.cursors

  -- The cursor raised to the greatest block, if there is one.
  abbrev pub raised_to : Option ℤ → Option ℤ → Option ℤ
  raised_to cursor none = cursor
  raised_to cursor (some block) = some (raised cursor block)

  record_transfer-lem :
      (d : DecodedBtcTransfer) (s : ScanTables)
      → Outcome
          (Keeps s)
          (λ _ t. Keeps s t × IsRecordedTransfer d t)
          (record_transfer rows context native_asset d s)
  unfolding record_transfer insert_event btc_transfer_event_draft
  record_transfer-lem d s =
      insert_event-lem rows (btc_transfer_event_draft context native_asset d) d.tx_hash s refl

  move_to-lem :
      (block : Option ℤ) (s : ScanTables)
      → KeepsEvents s (move_to rows context block s).1
        × (cursor_of (move_to rows context block s).1 ≡ raised_to (cursor_of s) block)
  unfolding move_to move_cursor
  move_to-lem none s = (λ d r. r, refl)
  move_to-lem (some block) s = (
    λ d r. r,
    cursor_block-upsert (rows.cursor_id s.cursors) (rows.clock s) context.tenant_id context.chain_id
        context.id btc_transaction_cursor block s.cursors,
  )

  -- What holds once the transfers are recorded and the cursor is moved.
  abbrev pub AreRecorded :
      ScanTables → List DecodedBtcTransfer → AppResult (List AddressEvent) × ScanTables → Type 0
  AreRecorded s transfers (err e, t) = Unit
  AreRecorded s transfers (ok events, t) =
      All (λ d. IsRecordedTransfer d t) transfers
      × (cursor_of t ≡ raised_to (cursor_of s) (max_of (map block_number_of transfers)))

  All-later :
      (s t : ScanTables) (transfers : List DecodedBtcTransfer)
      → KeepsEvents s t
      → All (λ d. IsRecordedTransfer d s) transfers
      → All (λ d. IsRecordedTransfer d t) transfers
  All-later s t [] k h = tt
  All-later s t (d ∷ ds) k h = (k _ h.0, All-later s t ds k h.1)

  record_transfers-lem :
      (transfers : List DecodedBtcTransfer) (s : ScanTables)
      → AreRecorded s transfers (record_transfers rows context native_asset transfers s)
  unfolding record_transfers
  record_transfers-lem transfers s =
      after_loop (for_each (record_transfer rows context native_asset) transfers s) (
        for_each-Outcome Keeps IsRecordedTransfer Keeps-refl Keeps-trans (λ u v d k. k.0 _)
          (record_transfer rows context native_asset) record_transfer-lem transfers s)
    where
      block : Option ℤ
      block = max_of (map block_number_of transfers)

      after_move :
          (events : List AddressEvent) (u : ScanTables) (moved : AppResult (Unit {0}) × ScanTables)
          → KeepsEvents u moved.1
          → cursor_of moved.1 ≡ raised_to (cursor_of u) block
          → cursor_of u ≡ cursor_of s
          → All (λ d. IsRecordedTransfer d u) transfers
          → AreRecorded s transfers (bind_result moved (λ _. pure events))
      after_move events u (err e, t) k c same h = tt
      after_move events u (ok done, t) k c same h =
          (All-later u t transfers k h, c ∙ ap (λ x. raised_to x block) same)

      after_loop :
          (out : AppResult (List AddressEvent) × ScanTables)
          → Outcome (Keeps s) (λ _ t. Keeps s t × All (λ d. IsRecordedTransfer d t) transfers) out
          → AreRecorded s transfers (
              bind_result out
                (λ events t. bind_result (move_to rows context block t) (λ _. pure events)))
      after_loop (err e, t) h = tt
      after_loop (ok events, t) ((k, c), h) =
          after_move events t (move_to rows context block t) (move_to-lem block t).0
            (move_to-lem block t).1 (ap (cursor_block context.id btc_transaction_cursor) c) h

  -- When a scan of the transactions returns, it has read every transaction that the pages of the
  -- address list, and each transfer among them in a block that is not below the first of the scan has
  -- its event recorded; the cursor is raised to the greatest block of the transfers that it took.
  pub scan_btc_transactions_complete :
      (bigint : Text → Text ⊎ ℤ) (client : BtcClient) (s t : ScanTables)
      (events : List AddressEvent)
      → scan_btc_transactions rows bigint context client native_asset s ≡ (ok events, t)
      → let from_block =
          btc_scan_from_block (scan_cursor context.id btc_transaction_cursor s.cursors) in
        ((tx : BtcTransaction)
          → Listed bigint client context.address from_block tx none
          → (found : Option DecodedBtcTransfer) × (classify_btc_transaction bigint tx
                context.address
              ≡ ok found)
            × ((d : DecodedBtcTransfer)
                → found ≡ some d
                → ltb_ℤ d.block_number from_block ≡ false
                → IsRecordedTransfer d t))
        × ((transfers : List DecodedBtcTransfer) × (scanned_transfers bigint client context.address
                from_block
              ≡ ok transfers)
            × (cursor_of t ≡ raised_to (cursor_of s) (max_of (map block_number_of transfers))))
  unfolding scan_btc_transactions read_cursor scanned_transfers
  scan_btc_transactions_complete bigint client s t events h =
      of_scanned (scanned_transfers bigint client context.address from_block) refl h
    where
      from_block : ℤ
      from_block = btc_scan_from_block (scan_cursor context.id btc_transaction_cursor s.cursors)

      Claim : Type 0
      Claim =
          ((tx : BtcTransaction)
            → Listed bigint client context.address from_block tx none
            → (found : Option DecodedBtcTransfer) × (classify_btc_transaction bigint tx
                  context.address
                ≡ ok found)
              × ((d : DecodedBtcTransfer)
                  → found ≡ some d
                  → ltb_ℤ d.block_number from_block ≡ false
                  → IsRecordedTransfer d t))
          × ((transfers : List DecodedBtcTransfer) × (scanned_transfers bigint client
                  context.address from_block
                ≡ ok transfers)
              × (cursor_of t ≡ raised_to (cursor_of s) (max_of (map block_number_of transfers))))

      of_scanned :
          (r : AppResult (List DecodedBtcTransfer))
          → scanned_transfers bigint client context.address from_block ≡ r
          → bind_result (r, s) (record_transfers rows context native_asset) ≡ (ok events, t)
          → Claim
      of_scanned (err e) eq run = absurd (err-ne-ok (ap (λ p. p.0) run))
      of_scanned (ok transfers) eq run =
          let (all, cur) = subst (AreRecorded s transfers) run (record_transfers-lem transfers s) in
          (
            λ tx m.
                let (found, c, into) =
                  pages_loop-IsRead bigint client context.address from_block
                    (max_provider_pages_per_scan + 1) 0 none transfers tx refl (omega arith) eq m in
                (
                  found,
                  c,
                  λ d e above. All-IsIn (λ x. IsRecordedTransfer x t) all (into d e above),
                ),
            (transfers, eq, cur),
          )
