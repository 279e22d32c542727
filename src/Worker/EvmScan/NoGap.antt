-- ===== src/Worker/EvmScan/NoGap.antt =====
-- The whole scan of the token transfers: every log up to the cursor has its event.
use coin_listener.Prelude.{◌≡◌, refl, sym, false, List, [], ◌∷◌, ◌++◌, Option, some, ap, ◌∙◌, arith}
use mathlib.Core.Path.{subst}
use mathlib.Core.List.{append-nil}
use coin_listener.Prelude.Int.{ℤ, ◌≤ℤ◌}
use coin_listener.Prelude.Text.{Text, codes}
use coin_listener.Core.Error.{IsOk, AppResult, ok, err}
use coin_listener.Core.Action.{Action, for_each, bind_result, pure}
use coin_listener.Core.Action.Outcomes.{Outcome}
use coin_listener.Core.Machine.{InI64}
use coin_listener.Core.Models.{Asset, ScanAddressContext, AddressEvent}
use coin_listener.Storage.Sql.{All-IsIn}
use coin_listener.Storage.Catalog.{selected_assets_by_type}
use coin_listener.Storage.Cursors.{scan_cursor, cursor_block, raised}
use coin_listener.Storage.ScanTables.{ScanTables, NewRows, read_cursor}
use coin_listener.Chains.Evm.{address_to_topic}
use coin_listener.Worker.Ranges.{BlockRange, bounded_block_ranges}
use coin_listener.Worker.Ranges.Partition.{IsPartition, bounded_block_ranges-IsPartition}
use coin_listener.Worker.Cursors.{evm_transfer_scan_range}
use coin_listener.Worker.EvmScan.{
  EvmRpcClient, Libraries, evm_erc20_transfer_cursor, evm_log_max_block_span, scan_range,
  scan_blocks, scan_evm_erc20_transfers, is_empty_list,
}
use coin_listener.Storage.ScanTables.Recorded.{Keeps, KeepsEvents}
use coin_listener.Worker.EvmScan.Coverage.{
  advanced, advanced-IsWithin, Precedes, IsWithin, IsScannedRange, Progress, cursor_of, range_later,
  scan_range-lem, advanced-IsPartition,
}

module _ (rows : NewRows) (libraries : Libraries) (context : ScanAddressContext)
    (rpc : EvmRpcClient) where
  module _ (topic : Text) (assets : List Asset) where
    abbrev Done : ScanTables → List BlockRange → AppResult (List AddressEvent) × ScanTables → Type 0
    Done s ranges out =
        KeepsEvents s out.1 × Progress rows libraries context rpc topic assets s ranges out

    abbrev raised_by : ScanTables → BlockRange → Option ℤ
    raised_by s r = some (raised (cursor_of rows libraries context rpc topic assets s) r.to_block)

    after_first :
        (r : BlockRange) (rs : List BlockRange) (s t : ScanTables)
        → KeepsEvents s t
        → IsScannedRange rows libraries context rpc topic assets t r
        → cursor_of rows libraries context rpc topic assets t ≡ raised_by s r
        → (first : List AddressEvent) (out : AppResult (List AddressEvent) × ScanTables)
        → Done t rs out
        → Done s (r ∷ rs) (bind_result out (λ rest. pure (first ++ rest)))
    unfolding advanced
    after_first r rs s t k h c first (err e, u) (l, (done, rest, eq, all, cur, end)) = (
      λ d x. l d (k d x),
      (
        r ∷ done,
        rest,
        ap (λ q. r ∷ q) eq,
        (range_later rows libraries context rpc topic assets t u r l h, all),
        cur ∙ ap (λ x. advanced x done) c,
        end,
      ),
    )
    after_first r rs s t k h c first (ok more, u) (l, (done, rest, eq, all, cur, end)) = (
      λ d x. l d (k d x),
      (
        r ∷ done,
        rest,
        ap (λ q. r ∷ q) eq,
        (range_later rows libraries context rpc topic assets t u r l h, all),
        cur ∙ ap (λ x. advanced x done) c,
        end,
      ),
    )

    scan_ranges-Progress :
        (ranges : List BlockRange) (s : ScanTables)
        → Done s ranges (for_each (scan_range rows libraries context rpc topic assets) ranges s)
    unfolding for_each advanced
    scan_ranges-Progress [] s = (λ d x. x, ([], [], refl, tt, refl, λ o. refl))
    scan_ranges-Progress (r ∷ rs) s =
        of_first (scan_ranges-Progress rs) (scan_range rows libraries context rpc topic assets r s)
          (scan_range-lem rows libraries context rpc topic assets r s)
      where
        body : BlockRange → Action ScanTables (List AddressEvent)
        body = scan_range rows libraries context rpc topic assets

        of_first :
            ((t : ScanTables) → Done t rs (for_each body rs t))
            → (out : AppResult (List AddressEvent) × ScanTables)
            → Outcome
                (Keeps s)
                (λ _ t.
                  KeepsEvents s t
                  × IsScannedRange rows libraries context rpc topic assets t r
                  × (cursor_of rows libraries context rpc topic assets t ≡ raised_by s r))
                out
            → Done s (r ∷ rs) (
                bind_result out
                  (λ first t. bind_result (for_each body rs t) (λ rest. pure (first ++ rest))))
        of_first later (err e, t) (k, c) = (
          k,
          (
            [],
            r ∷ rs,
            refl,
            tt,
            ap (cursor_block context.id evm_erc20_transfer_cursor) c,
            λ o. absurd o,
          ),
        )
        of_first later (ok first, t) (k, h, c) =
            after_first r rs s t k h c first (for_each body rs t) (later t)

  module _ (latest_block default_confirmations : ℤ) (selected : List Asset) (s : ScanTables) where
    abbrev pub token_assets : List Asset
    token_assets = selected_assets_by_type selected (codes "erc20")

    abbrev run : AppResult (List AddressEvent) × ScanTables
    run =
        scan_evm_erc20_transfers rows libraries context rpc latest_block default_confirmations
          selected s

    abbrev cursor_at : ScanTables → Option ℤ
    cursor_at t = cursor_block context.id evm_erc20_transfer_cursor t.cursors

    scan_evm_erc20_transfers-Done :
        (from to : ℤ) (topic : Text) (ranges : List BlockRange)
        → evm_transfer_scan_range
            (scan_cursor context.id evm_erc20_transfer_cursor s.cursors)
            latest_block
            default_confirmations
          ≡ ok (some (from, to))
        → is_empty_list token_assets ≡ false
        → address_to_topic context.address ≡ ok topic
        → bounded_block_ranges from to evm_log_max_block_span ≡ ok ranges
        → Done topic token_assets s ranges run
    unfolding scan_evm_erc20_transfers scan_blocks read_cursor
    scan_evm_erc20_transfers-Done from to topic ranges due some_asset watched cut =
        rw due
          (rw some_asset (rw watched (rw cut (scan_ranges-Progress topic token_assets ranges s))))

    -- Let blocks `from` to `to`, which come after the cursor, be due, the address have a topic, and an
    -- ERC-20 asset be selected. However the scan ends, every block from `from` up to the cursor that it
    -- leaves lies in a range in which every selected contract was asked for its transfers to and from
    -- the address, and each log of the answers was decoded and its event recorded; and a scan that
    -- returns leaves the cursor at `to`.
    pub scan_evm_erc20_transfers-no_gap :
        (from to : ℤ) (topic : Text)
        → evm_transfer_scan_range
            (scan_cursor context.id evm_erc20_transfer_cursor s.cursors)
            latest_block
            default_confirmations
          ≡ ok (some (from, to))
        → InI64 from
        → InI64 to
        → from ≤ℤ to
        → Precedes (cursor_at s) from
        → is_empty_list token_assets ≡ false
        → address_to_topic context.address ≡ ok topic
        → ((end_block block : ℤ)
            → cursor_at run.1 ≡ some end_block
            → from ≤ℤ block
            → block ≤ℤ end_block
            → (r : BlockRange) × IsWithin block r
              × IsScannedRange rows libraries context rpc topic token_assets run.1 r)
          × (IsOk run.0 → cursor_at run.1 ≡ some to)
    scan_evm_erc20_transfers-no_gap from to topic due hf ht le q some_asset watched =
        let (ranges, cut, p) =
          bounded_block_ranges-IsPartition from to evm_log_max_block_span hf ht (omega arith)
            (omega arith) in
        of_done ranges p
          (scan_evm_erc20_transfers-Done from to topic ranges due some_asset watched cut)
      where
        of_done :
            (ranges : List BlockRange)
            → IsPartition evm_log_max_block_span from to ranges
            → Done topic token_assets s ranges run
            → ((end_block block : ℤ)
                → cursor_at run.1 ≡ some end_block
                → from ≤ℤ block
                → block ≤ℤ end_block
                → (r : BlockRange) × IsWithin block r
                  × IsScannedRange rows libraries context rpc topic token_assets run.1 r)
              × (IsOk run.0 → cursor_at run.1 ≡ some to)
        of_done ranges p (k, (done, rest, eq, all, cur, end)) = (
          λ e b at_e lo hi.
              let (r, m, i) =
                advanced-IsWithin evm_log_max_block_span from to done rest (cursor_at s) e b
                  (subst (IsPartition evm_log_max_block_span from to) eq p) q (sym cur ∙ at_e) lo
                  hi in
              (
                r,
                i,
                All-IsIn (IsScannedRange rows libraries context rpc topic token_assets run.1) all m,
              ),
          λ o.
              cur
              ∙ advanced-IsPartition evm_log_max_block_span from to done (cursor_at s)
                  (subst (IsPartition evm_log_max_block_span from to)
                    (eq ∙ ap (λ t. done ++ t) (end o) ∙ append-nil done) p)
                  q le,
        )
