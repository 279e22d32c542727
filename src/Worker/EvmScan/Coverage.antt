-- ===== src/Worker/EvmScan/Coverage.antt =====
-- The cursor of the token transfers never passes a block whose logs were not scanned.
use coin_listener.Prelude.{
  ◌≡◌, refl, true, false, List, [], ◌∷◌, ◌++◌, Option, none, some, All, arith, Bool-cases, inl, inr,
  ap, ◌∙◌, IsIn, head, tail, none-ne-some, eq_of_some,
}
use coin_listener.Prelude.Int.{ℤ, pos, ◌+ℤ◌, ◌≤ℤ◌, pos_part, neg_part, int_laws, eq_of_parts}
use coin_listener.Prelude.Text.{Text}
use coin_listener.Core.Error.{AppResult, ok, err, IsOk}
use coin_listener.Core.Action.{for_each, bind_result, pure}
use coin_listener.Core.Action.Outcomes.{Outcome}
use coin_listener.Core.Machine.{◌<ℤ◌, leb_ℤ}
use coin_listener.Core.Models.{Asset, ScanAddressContext, AddressEvent}
use coin_listener.Storage.Cursors.{cursor_block, cursor_block-upsert, raised}
use coin_listener.Storage.ScanTables.{ScanTables, NewRows, move_cursor}
use coin_listener.Worker.Ranges.{BlockRange}
use coin_listener.Worker.Ranges.Partition.{IsPartition}
use coin_listener.Worker.EvmScan.{
  EvmRpcClient, Libraries, evm_erc20_transfer_cursor, scan_asset, scan_range,
}
use coin_listener.Storage.ScanTables.Recorded.{Keeps, KeepsEvents}
use coin_listener.Worker.EvmScan.Steps.{IsScannedAsset, asset_later, scan_assets-Scans}

-- The cursor after it was raised to the end of each range.
unfoldable pub advanced : Option ℤ → List BlockRange → Option ℤ
advanced cursor [] = cursor
advanced cursor (r ∷ rs) = advanced (some (raised cursor r.to_block)) rs

abbrev pub Precedes : Option ℤ → ℤ → Type 0
Precedes none from = Unit
Precedes (some block) from = block <ℤ from

abbrev pub IsWithin : ℤ → BlockRange → Type 0
IsWithin block r = (r.from_block ≤ℤ block) × (block ≤ℤ r.to_block)

raised_lem :
    (cursor : Option ℤ) (from to : ℤ) → Precedes cursor from → from ≤ℤ to → raised cursor to ≡ to
raised_lem none from to h k = refl
raised_lem (some c) from to h k = ground (arith, eq_of_parts c to)

leb_ℤ-le : (a b : ℤ) → leb_ℤ a b ≡ true → a ≤ℤ b
leb_ℤ-le a b h = ground arith

leb_ℤ-gt : (a b : ℤ) → leb_ℤ a b ≡ false → b <ℤ a
leb_ℤ-gt a b h = ground arith

-- Every block from the first up to the cursor is in one of the ranges that raised it.
pub advanced-IsWithin :
    (span from to : ℤ) (done rest : List BlockRange) (cursor : Option ℤ) (end_block block : ℤ)
    → IsPartition span from to (done ++ rest)
    → Precedes cursor from
    → advanced cursor done ≡ some end_block
    → from ≤ℤ block
    → block ≤ℤ end_block
    → (r : BlockRange) × IsIn r done × IsWithin block r
unfolding advanced
advanced-IsWithin span from to [] rest none e b p q a lo hi = absurd (none-ne-some a)
advanced-IsWithin span from to [] rest (some c) e b p q a lo hi =
    absurd (omega (arith, ap pos_part (eq_of_some a), ap neg_part (eq_of_some a)))
advanced-IsWithin span from to (r ∷ done) rest cursor e b (f, lo', hi', w, full, p) q a lo hi =
    elim (Bool-cases (leb_ℤ b r.to_block)) [
      | inl yes' ↦ (r, head, (rw f lo, leb_ℤ-le b r.to_block yes'))
      | inr no' ↦
          let a' : advanced (some r.to_block) done ≡ some e =
            rw (raised_lem cursor from r.to_block q lo') at a in
          let (t, m, i) =
            advanced-IsWithin span (r.to_block +ℤ pos 1) to done rest (some r.to_block) e b p
              (omega int_laws) a' (omega (int_laws, leb_ℤ-gt b r.to_block no')) hi in
          (t, tail m, i)
    ]

-- Ranges that partition an interval raise the cursor to its end.
pub advanced-IsPartition :
    (span from to : ℤ) (ranges : List BlockRange) (cursor : Option ℤ)
    → IsPartition span from to ranges
    → Precedes cursor from
    → from ≤ℤ to
    → advanced cursor ranges ≡ some to
unfolding advanced
advanced-IsPartition span from to [] cursor p q le = absurd (omega arith)
advanced-IsPartition span from to (r ∷ []) cursor (f, lo, hi, w, full, p) q le =
    rw (raised_lem cursor from r.to_block q lo)
      (ap some (eq_of_parts r.to_block to (omega int_laws)))
advanced-IsPartition span from to (r ∷ next ∷ rs) cursor (f, lo, hi, w, full, p) q le =
    rw (raised_lem cursor from r.to_block q lo) (
      advanced-IsPartition span (r.to_block +ℤ pos 1) to (next ∷ rs) (some r.to_block) p
        (omega int_laws) (omega (int_laws, p.1, p.2)))

module _ (rows : NewRows) (libraries : Libraries) (context : ScanAddressContext)
    (rpc : EvmRpcClient) (topic : Text) (assets : List Asset) where
  -- All assets are scanned in the range.
  abbrev pub IsScannedRange : ScanTables → BlockRange → Type 0
  IsScannedRange s range =
      All (λ asset. IsScannedAsset rows libraries context rpc topic range asset s) assets

  abbrev pub cursor_of : ScanTables → Option ℤ
  cursor_of s = cursor_block context.id evm_erc20_transfer_cursor s.cursors

  -- The ranges up to some point are scanned and have raised the cursor; the others have not, and
  -- there are none after a scan that returns.
  abbrev pub Progress :
      ScanTables → List BlockRange → AppResult (List AddressEvent) × ScanTables → Type 0
  Progress s ranges (result, t) =
      (done : List BlockRange) × (rest : List BlockRange) × (ranges ≡ done ++ rest)
      × All (IsScannedRange t) done
      × (cursor_of t ≡ advanced (cursor_of s) done)
      × (IsOk result → rest ≡ [])

  pub range_later :
      (s t : ScanTables) (range : BlockRange)
      → KeepsEvents s t
      → IsScannedRange s range
      → IsScannedRange t range
  range_later s t range k h = of_assets assets h
    where
      of_assets :
          (as_ : List Asset)
          → All (λ a. IsScannedAsset rows libraries context rpc topic range a s) as_
          → All (λ a. IsScannedAsset rows libraries context rpc topic range a t) as_
      of_assets [] h = tt
      of_assets (a ∷ as_) h =
          (asset_later rows libraries context rpc topic range s t a k h.0, of_assets as_ h.1)

  pub scan_range-lem :
      (range : BlockRange) (s : ScanTables)
      → Outcome
          (Keeps s)
          (λ _ t.
            KeepsEvents s t
            × IsScannedRange t range
            × (cursor_of t ≡ some (raised (cursor_of s) range.to_block)))
          (scan_range rows libraries context rpc topic assets range s)
  unfolding scan_range move_cursor
  scan_range-lem range s =
      of_assets (for_each (scan_asset rows libraries context rpc topic range) assets s)
        (scan_assets-Scans rows libraries context rpc topic range assets s)
    where
      of_assets :
          (out : AppResult (List AddressEvent) × ScanTables)
          → Outcome (Keeps s) (λ _ t. Keeps s t × IsScannedRange t range) out
          → Outcome
              (Keeps s)
              (λ _ t.
                KeepsEvents s t
                × IsScannedRange t range
                × (cursor_of t ≡ some (raised (cursor_of s) range.to_block)))
              (bind_result out (λ events t.
                bind_result
                  (move_cursor rows context.tenant_id context.chain_id context.id
                    evm_erc20_transfer_cursor range.to_block t)
                  (λ _. pure events)))
      of_assets (err e, t) h = h
      of_assets (ok events, t) ((k, c), h) = (
        k,
        range_later t _ range (λ d r. r) h,
        cursor_block-upsert (rows.cursor_id t.cursors) (rows.clock t) context.tenant_id
              context.chain_id context.id evm_erc20_transfer_cursor range.to_block t.cursors
            ∙ ap
                (λ cursors. some (
                  raised (cursor_block context.id evm_erc20_transfer_cursor cursors)
                    range.to_block))
                c,
      )
