-- ===== src/Worker/Cursors.antt =====
-- Where a scan begins and ends: the cursor functions of backend/crates/worker/src/lib.rs.
pub mod Progress
use coin_listener.Prelude.{
  ℕ, ◌≡◌, Bool, List, [], ◌∷◌, ◌++◌, Option, none, some, map, if◌then◌else◌, not,
}
use coin_listener.Prelude.Text.{Text, codes}
use coin_listener.Prelude.Int.{ℤ, pos, ◌+ℤ◌, ◌-ℤ◌, ltb_ℤ}
use coin_listener.Core.Error.{AppError, validation, config, AppResult, ok, err, ensure, ◌>>◌}
use coin_listener.Core.Machine.{leb_ℤ, max_ℤ, wrap_i64, saturating_add}
use coin_listener.Core.Models.{ScanCursor}

-- EVM_TRANSFER_INITIAL_WINDOW_BLOCKS, BTC_CURSOR_OVERLAP_BLOCKS
abbrev pub evm_transfer_initial_window_blocks : ℕ
evm_transfer_initial_window_blocks = 1000

abbrev pub btc_cursor_overlap_blocks : ℕ
btc_cursor_overlap_blocks = 1

-- The first block after the cursor, or the first of a window that ends at `confirmed_to`.
abbrev from_cursor : Option ScanCursor → ℤ → ℤ → ℤ
from_cursor none confirmed_to window =
    max_ℤ (wrap_i64 (wrap_i64 (confirmed_to -ℤ window) +ℤ pos 1)) (pos 0)
from_cursor (some cursor) confirmed_to window = wrap_i64 (cursor.last_scanned_block +ℤ pos 1)

unfoldable pub evm_transfer_scan_range : Option ScanCursor → ℤ → ℤ → AppResult (Option (ℤ × ℤ))
evm_transfer_scan_range cursor latest_block default_confirmations =
    if ltb_ℤ default_confirmations (pos 0)
    then err (validation (codes "default_confirmations cannot be negative"))
    else (let confirmed_to = wrap_i64 (latest_block -ℤ default_confirmations) in
        let from_block = from_cursor cursor confirmed_to (pos evm_transfer_initial_window_blocks) in
        if ltb_ℤ confirmed_to (pos 0)
        then ok none
        else if ltb_ℤ confirmed_to from_block
        then ok none
        else ok (some (from_block, confirmed_to)))

unfoldable pub confirmed_cursor_range :
    Option ScanCursor → ℤ → ℤ → ℤ → Text → AppResult (Option (ℤ × ℤ))
confirmed_cursor_range cursor latest_value confirmations initial_window label =
    if ltb_ℤ confirmations (pos 0)
    then err (validation (label ++ codes " confirmations cannot be negative"))
    else if leb_ℤ initial_window (pos 0)
    then err (validation (codes "initial_window must be positive"))
    else (let confirmed_to = wrap_i64 (latest_value -ℤ confirmations) in
        let from = from_cursor cursor confirmed_to initial_window in
        if ltb_ℤ confirmed_to (pos 0)
        then ok none
        else if ltb_ℤ confirmed_to from
        then ok none
        else ok (some (from, confirmed_to)))

-- `saturating_sub(BTC_CURSOR_OVERLAP_BLOCKS.saturating_sub(1)).max(0)`; the constant makes it 0.
unfoldable pub btc_scan_from_block : Option ScanCursor → ℤ
btc_scan_from_block none = pos 0
btc_scan_from_block (some cursor) =
    max_ℤ
      (saturating_add cursor.last_scanned_block (pos 0 -ℤ (pos btc_cursor_overlap_blocks -ℤ pos 1)))
      (pos 0)

-- The greatest of the values: `iter().max()`.
unfoldable pub max_of : List ℤ → Option ℤ
max_of [] = none
max_of (v ∷ vs) = elim (max_of vs) [ none ↦ some v | some m ↦ some (max_ℤ v m) ]
