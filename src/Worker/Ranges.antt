-- ===== src/Worker/Ranges.antt =====
-- The block ranges of a scan: `bounded_block_ranges` of
-- backend/crates/worker/src/lib.rs.
pub mod Partition
use coin_listener.Prelude.{
  ℕ, zero, suc, ◌+◌, ◌≡◌, refl, Bool, List, [], ◌∷◌, ◌++◌, Option, none, some, arith, if◌then◌else◌,
}
use coin_listener.Prelude.Text.{Text, codes}
use coin_listener.Prelude.Int.{ℤ, pos, pos_part, ◌+ℤ◌, ◌-ℤ◌, ltb_ℤ}
use coin_listener.Core.Error.{AppError, validation, AppResult, ok, err}
use coin_listener.Core.Machine.{leb_ℤ, eq_ℤ, min_ℤ, max_ℤ, wrap_i64, saturating_add}

pub record BlockRange : Type 0 where
  pub from_block : ℤ
  pub to_block : ℤ

-- One round of the `while`, and the ranges that the rounds after it push.
unfoldable pub ranges_loop : ℕ → ℤ → ℤ → ℤ → List BlockRange
ranges_loop zero current_from to_block max_block_span = []
ranges_loop (suc fuel) current_from to_block max_block_span =
    let current_to =
      min_ℤ (saturating_add current_from (wrap_i64 (max_block_span -ℤ pos 1))) to_block in
    let range : BlockRange = record { from_block = current_from; to_block = current_to } in
    let rest = ranges_loop fuel (wrap_i64 (current_to +ℤ pos 1)) to_block max_block_span in
    if leb_ℤ current_from to_block
    then (if eq_ℤ current_to to_block then range ∷ [] else range ∷ rest)
    else []

-- Each round leaves fewer blocks, so that one round for each block is enough.
unfoldable pub bounded_block_ranges : ℤ → ℤ → ℤ → AppResult (List BlockRange)
unfolding ranges_loop
bounded_block_ranges from_block to_block max_block_span =
    if leb_ℤ max_block_span (pos 0)
    then err (validation (codes "max block span must be positive"))
    else if ltb_ℤ to_block from_block
    then ok []
    else ok (ranges_loop (pos_part (to_block -ℤ from_block) + 1) from_block to_block max_block_span)
