-- ===== src/Worker/Cursors/Progress.antt =====
-- What the cursor functions promise: a scan takes up right after its cursor, ends at the last
-- confirmed block, and stays within the initial window where there is no cursor.
use mathlib.Core.Path.{subst}
use coin_listener.Prelude.{
  ◌≡◌, refl, inl, inr, false, Option, none, some, arith, if◌then◌else◌, Bool-cases, sym, ◌∙◌, ap,
}
use coin_listener.Prelude.Text.{Text}
use coin_listener.Prelude.Int.{
  ℤ, pos, ◌+ℤ◌, ◌-ℤ◌, ◌≤ℤ◌, ltb_ℤ, int_laws, one_part, pos_part, neg_part,
}
use coin_listener.Core.Error.{AppResult, ok}
use coin_listener.Core.Machine.{InI64, ◌<ℤ◌, max_ℤ, wrap_i64_lem}
use coin_listener.Core.Models.{ScanCursor}
use coin_listener.Worker.Cursors.{evm_transfer_scan_range, from_cursor}

-- The block where a scan with this cursor should begin.
abbrev pub first_block : Option ScanCursor → ℤ → ℤ → ℤ
first_block none to window = max_ℤ (to -ℤ window +ℤ pos 1) (pos 0)
first_block (some cursor) to window = cursor.last_scanned_block +ℤ pos 1

-- The cursor's block is not the last that an `i64` holds.
abbrev pub HasNext : Option ScanCursor → Type 0
HasNext none = Unit
HasNext (some cursor) = InI64 (cursor.last_scanned_block +ℤ pos 1)

from_cursor_lem :
    (cursor : Option ScanCursor) (to window : ℤ)
    → InI64 to
    → InI64 window
    → pos 0 ≤ℤ to
    → pos 0 <ℤ window
    → HasNext cursor
    → from_cursor cursor to window ≡ first_block cursor to window
from_cursor_lem (some cursor) to window ht hw p q n =
    wrap_i64_lem (cursor.last_scanned_block +ℤ pos 1) n
from_cursor_lem none to window ht hw p q n =
    rw (wrap_i64_lem (to -ℤ window) (omega (int_laws, one_part (to -ℤ window)))) (
      rw
        (wrap_i64_lem (to -ℤ window +ℤ pos 1)
          (omega (int_laws, one_part (to -ℤ window), one_part (to -ℤ window +ℤ pos 1))))
        refl)

-- What both functions return once their arguments are accepted.
abbrev range_if_due : ℤ → ℤ → AppResult (Option (ℤ × ℤ))
range_if_due from to =
    if ltb_ℤ to (pos 0) then ok none else if ltb_ℤ to from then ok none else ok (some (from, to))

minus_InI64 : (l c : ℤ) → InI64 l → InI64 c → pos 0 ≤ℤ l → pos 0 ≤ℤ c → InI64 (l -ℤ c)
minus_InI64 l c hl hc p q = omega (int_laws, one_part (l -ℤ c))

ltb_ℤ_ge : (a b : ℤ) → b ≤ℤ a → ltb_ℤ a b ≡ false
ltb_ℤ_ge a b h = ground arith

-- A range that is due does not depend on what the first block is where nothing is confirmed.
range_if_due_cong :
    (from from' to : ℤ)
    → (pos 0 ≤ℤ to → from ≡ from')
    → range_if_due from to ≡ range_if_due from' to
range_if_due_cong from from' to h = elim (Bool-cases (ltb_ℤ to (pos 0))) [
  | inl neg ↦ rw neg refl
  | inr nonneg ↦ rw (h (ge to nonneg)) refl
]
  where
    ge : (a : ℤ) → ltb_ℤ a (pos 0) ≡ false → pos 0 ≤ℤ a
    ge a h = ground arith

module _ (cursor : Option ScanCursor) (latest confirmations : ℤ) (hl : InI64 latest)
    (hc : InI64 confirmations) (l : pos 0 ≤ℤ latest) (c : pos 0 ≤ℤ confirmations)
    (n : HasNext cursor) where
  evm_transfer_scan_range_lem :
      evm_transfer_scan_range cursor latest confirmations
      ≡ range_if_due
          (first_block cursor (latest -ℤ confirmations) (pos 1000))
          (latest -ℤ confirmations)
  unfolding evm_transfer_scan_range
  evm_transfer_scan_range_lem = rw (ltb_ℤ_ge confirmations (pos 0) c) (
      rw (wrap_i64_lem (latest -ℤ confirmations) fits) (
        range_if_due_cong _ _ (latest -ℤ confirmations) (λ q.
          from_cursor_lem cursor (latest -ℤ confirmations) (pos 1000) fits (omega arith) q
            (omega arith) n)))
    where
      fits : InI64 (latest -ℤ confirmations)
      fits = minus_InI64 latest confirmations hl hc l c

due_facts :
    (from to f t : ℤ)
    → range_if_due from to ≡ ok (some (f, t))
    → (f ≡ from) × (t ≡ to) × (f ≤ℤ t) × (pos 0 ≤ℤ t)
due_facts from to f t e = ground arith

-- For a first scan that returns a range and a second one whose cursor stands at its last block (both
-- at non-negative `i64` heights, with the same non-negative confirmations, the cursors below the end
-- of `i64`): the first ends at the last confirmed block, and the second begins right after it, which
-- it can only do at a greater height.
pub evm_transfer_scan_range-resumes :
    (cursor : Option ScanCursor) (next : ScanCursor) (latest latest' confirmations f t f' t' : ℤ)
    → InI64 latest
    → InI64 latest'
    → InI64 confirmations
    → pos 0 ≤ℤ latest
    → pos 0 ≤ℤ latest'
    → pos 0 ≤ℤ confirmations
    → HasNext cursor
    → InI64 (t +ℤ pos 1)
    → next.last_scanned_block ≡ t
    → evm_transfer_scan_range cursor latest confirmations ≡ ok (some (f, t))
    → evm_transfer_scan_range (some next) latest' confirmations ≡ ok (some (f', t'))
    → (t ≡ latest -ℤ confirmations) × (f ≤ℤ t) × (f' ≡ t +ℤ pos 1) × (latest <ℤ latest')
evm_transfer_scan_range-resumes cursor next latest latest' confirmations f t f' t' hl hl' hc l l' c
      n n' at e e' =
    let (_, last, le, _) =
      due_facts (first_block cursor (latest -ℤ confirmations) (pos 1000)) (latest -ℤ confirmations)
        f t (sym (evm_transfer_scan_range_lem cursor latest confirmations hl hc l c n) ∙ e) in
    let (first', last', le', _) =
      due_facts (first_block (some next) (latest' -ℤ confirmations) (pos 1000))
        (latest' -ℤ confirmations) f' t'
        (sym (
            evm_transfer_scan_range_lem (some next) latest' confirmations hl' hc l' c
              (subst (λ b. InI64 (b +ℤ pos 1)) (sym at) n'))
          ∙ e') in
    let after : f' ≡ t +ℤ pos 1 = first' ∙ ap (λ b. b +ℤ pos 1) at in
    (
      last,
      le,
      after,
      omega (
        int_laws,
        ap pos_part last,
        ap neg_part last,
        ap pos_part last',
        ap neg_part last',
        ap pos_part after,
        ap neg_part after,
      ),
    )
