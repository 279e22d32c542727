-- ===== src/Worker/Ranges/Partition.antt =====
-- `bounded_block_ranges` cuts an interval of blocks into consecutive ranges.
use coin_listener.Prelude.{
  ℕ, zero, suc, ◌+◌, ◌<◌, ◌≡◌, refl, ◌⊎◌, inl, inr, Bool, true, false, List, [], ◌∷◌, arith, ap,
  ◌≢◌, Bool-cases, leb, leb→le, if◌then◌else◌, ◌&&◌, ltb→lt,
}
use coin_listener.Prelude.Int.{
  ℤ, pos, pos_part, neg_part, ◌+ℤ◌, ◌-ℤ◌, ◌≤ℤ◌, ltb_ℤ, int_laws, +ℤ_parts, -ℤ_parts, eq_of_parts,
  one_part,
}
use coin_listener.Core.Error.{ok, err-ne-ok}
use coin_listener.Core.Machine.{
  leb_ℤ, eq_ℤ, min_ℤ, InI64, wrap_i64, wrap_i64_lem, saturating_add, ◌<ℤ◌, i64_max,
}
use coin_listener.Worker.Ranges.{BlockRange, ranges_loop, bounded_block_ranges}

-- The ranges follow one another from `from` to `to` with no gap and no overlap; none is empty, and
-- each has `span` blocks, or ends at `to`, if that comes first.
abbrev pub IsPartition : ℤ → ℤ → ℤ → List BlockRange → Type 0
IsPartition span from to [] = to <ℤ from
IsPartition span from to (r ∷ rs) =
    (r.from_block ≡ from)
    × (from ≤ℤ r.to_block)
    × (r.to_block ≤ℤ to)
    × (r.to_block ≤ℤ from +ℤ span -ℤ pos 1)
    × ((r.to_block ≡ to) ⊎ (r.to_block ≡ from +ℤ span -ℤ pos 1))
    × IsPartition span (r.to_block +ℤ pos 1) to rs

-- A negative end of the type is not met when something positive is added.
saturating_add_lem :
    (a b : ℤ) → InI64 a → pos 0 ≤ℤ b → saturating_add a b ≡ min_ℤ (a +ℤ b) (pos i64_max)
unfolding saturating_add
saturating_add_lem a b ha hb = ground (arith, +ℤ_parts a b)

min_ℤ_cap : (a to : ℤ) → InI64 to → min_ℤ (min_ℤ a (pos i64_max)) to ≡ min_ℤ a to
min_ℤ_cap a to h = ground (arith, eq_of_parts a to)

abbrev range_to : ℤ → ℤ → ℤ → ℤ
range_to from to span = min_ℤ (from +ℤ (span -ℤ pos 1)) to

range_to_lem :
    (from to span : ℤ)
    → InI64 from
    → InI64 to
    → InI64 span
    → pos 0 <ℤ span
    → min_ℤ (saturating_add from (wrap_i64 (span -ℤ pos 1))) to ≡ range_to from to span
range_to_lem from to span hf ht hs p =
    rw (wrap_i64_lem (span -ℤ pos 1) (omega (arith, less, -ℤ_parts span (pos 1)))) (
      rw (saturating_add_lem from (span -ℤ pos 1) hf (omega (arith, less, -ℤ_parts span (pos 1))))
        (min_ℤ_cap (from +ℤ (span -ℤ pos 1)) to ht))
  where
    less : pos_part (span -ℤ pos 1) + 1 ≡ pos_part span
    less = omega (arith, -ℤ_parts span (pos 1), one_part (span -ℤ pos 1), one_part span)

-- Where a range ends: within the interval, at most `span` blocks on.
range_end :
    (from to span : ℤ)
    → from ≤ℤ to
    → pos 0 <ℤ span
    → let e = range_to from to span in
      (from ≤ℤ e)
      × (e ≤ℤ to)
      × (e ≤ℤ from +ℤ span -ℤ pos 1)
      × ((e ≡ to) ⊎ (e ≡ from +ℤ span -ℤ pos 1))
range_end from to span le p = elim (Bool-cases (leb_ℤ (from +ℤ (span -ℤ pos 1)) to)) [
  | inl h ↦ rw h (omega int_laws, leb→le _ _ h, omega int_laws, inr (omega int_laws))
  | inr h ↦ rw h (le, omega int_laws, omega (int_laws, leb_false _ _ h), inl refl)
]
  where
    leb_false : (a b : ℕ) → leb a b ≡ false → b < a
    leb_false a b h = ground arith

rounds_left :
    (from to e : ℤ) (fuel : ℕ)
    → pos_part (to -ℤ from) < suc fuel
    → from ≤ℤ e
    → e ≤ℤ to
    → eq_ℤ e to ≡ false
    → (e +ℤ pos 1 ≤ℤ to) × (pos_part (to -ℤ (e +ℤ pos 1)) < fuel)
rounds_left from to e fuel h a b ne =
    omega (int_laws, eq_ℤ_false e to ne, one_part (to -ℤ from), one_part (to -ℤ (e +ℤ pos 1)))
  where
    eq_ℤ_false : (a b : ℤ) → eq_ℤ a b ≡ false → pos_part a + neg_part b ≢ pos_part b + neg_part a
    eq_ℤ_false a b h = ground arith

InI64-between : (a b c : ℤ) → InI64 a → InI64 c → a ≤ℤ b → b ≤ℤ c → InI64 b
InI64-between a b c ha hc h k = omega (arith, one_part b)

leb_ℤ-true : (a b : ℤ) → a ≤ℤ b → leb_ℤ a b ≡ true
leb_ℤ-true a b h = ground arith

eq_ℤ-true : (a b : ℤ) → eq_ℤ a b ≡ true → a ≡ b
eq_ℤ-true a b h = ground (arith, eq_of_parts a b)

loop-IsPartition :
    (fuel : ℕ) (from to span : ℤ)
    → InI64 from
    → InI64 to
    → InI64 span
    → from ≤ℤ to
    → pos 0 <ℤ span
    → pos_part (to -ℤ from) < fuel
    → IsPartition span from to (ranges_loop fuel from to span)
unfolding ranges_loop
loop-IsPartition zero from to span hf ht hs le p h = elim h [ ]
loop-IsPartition (suc fuel) from to span hf ht hs le p h =
    let e : ℤ = range_to from to span in
    let (lo, hi, wide, full) = range_end from to span le p in
    rw (range_to_lem from to span hf ht hs p) (
      rw (leb_ℤ-true from to le) (elim (Bool-cases (eq_ℤ e to)) [
        | inl h' ↦ rw h' (
          refl,
          lo,
          hi,
          wide,
          full,
          omega (int_laws, ap pos_part (eq_ℤ-true e to h'), ap neg_part (eq_ℤ-true e to h')),
        )
        | inr h' ↦
            let (le', left) = rounds_left from to e fuel h lo hi h' in
            let next : InI64 (e +ℤ pos 1) =
              InI64-between from (e +ℤ pos 1) to hf ht (omega int_laws) le' in
            rw (h', wrap_i64_lem (e +ℤ pos 1) next)
              (
                refl,
                lo,
                hi,
                wide,
                full,
                loop-IsPartition fuel (e +ℤ pos 1) to span next ht hs le' p left,
              )
      ]))

-- For every interval of `i64` block numbers and every positive `i64` span, `bounded_block_ranges`
-- succeeds with consecutive ranges from the first block to the last, none empty, each of `span`
-- blocks or up to the end of the interval; an empty interval gives no range.
pub bounded_block_ranges-IsPartition :
    (from to span : ℤ)
    → InI64 from
    → InI64 to
    → InI64 span
    → pos 0 <ℤ span
    → (rs : List BlockRange) × (bounded_block_ranges from to span ≡ ok rs)
      × IsPartition span from to rs
unfolding bounded_block_ranges
bounded_block_ranges-IsPartition from to span hf ht hs p =
    rw (leb_ℤ-false span (pos 0) p) (elim (Bool-cases (ltb_ℤ to from)) [
      | inl h ↦ ([], rw h refl, ltb→lt _ _ h)
      | inr h ↦ (
        ranges_loop (pos_part (to -ℤ from) + 1) from to span,
        rw h refl,
        loop-IsPartition (pos_part (to -ℤ from) + 1) from to span hf ht hs (ltb_ℤ-false to from h) p
            (omega arith),
      )
    ])
  where
    leb_ℤ-false : (a b : ℤ) → b <ℤ a → leb_ℤ a b ≡ false
    leb_ℤ-false a b h = ground arith

    ltb_ℤ-false : (a b : ℤ) → ltb_ℤ a b ≡ false → b ≤ℤ a
    ltb_ℤ-false a b h = ground arith

-- How many of the ranges hold the block `b`.
abbrev pub holds : ℤ → BlockRange → Bool
holds b r = leb_ℤ r.from_block b && leb_ℤ b r.to_block

abbrev pub count_holding : ℤ → List BlockRange → ℕ
count_holding b [] = 0
count_holding b (r ∷ rs) = (if holds b r then 1 else 0) + count_holding b rs

holds_step :
    (b from to first last : ℤ) (n : ℕ)
    → first ≡ from
    → from ≤ℤ last
    → last ≤ℤ to
    → n ≡ (if leb_ℤ (last +ℤ pos 1) b && leb_ℤ b to then 1 else 0)
    → (if leb_ℤ first b && leb_ℤ b last then 1 else 0) + n
      ≡ (if leb_ℤ from b && leb_ℤ b to then 1 else 0)
holds_step b from to first last n e lo hi h = rw e (ground (arith, +ℤ_parts last (pos 1)))

IsPartition-count :
    (b span from to : ℤ) (rs : List BlockRange)
    → IsPartition span from to rs
    → count_holding b rs ≡ (if leb_ℤ from b && leb_ℤ b to then 1 else 0)
IsPartition-count b span from to [] p = ground arith
IsPartition-count b span from to (r ∷ rs) p =
    holds_step b from to r.from_block r.to_block (count_holding b rs) p.0 p.1 p.2
      (IsPartition-count b span (r.to_block +ℤ pos 1) to rs p.5)

-- A span that is not positive is refused.
span_positive :
    (from to span : ℤ) (rs : List BlockRange)
    → bounded_block_ranges from to span ≡ ok rs
    → pos 0 <ℤ span
unfolding bounded_block_ranges
span_positive from to span rs e = elim (Bool-cases (leb_ℤ span (pos 0))) [
  | inl h ↦ absurd (err-ne-ok (rw h at e))
  | inr h ↦ ground arith
]

-- A block lies in exactly one of the ranges that `bounded_block_ranges` returns if it lies in the
-- interval, and in none otherwise: no block is skipped, and none is fetched twice.
pub bounded_block_ranges-covers_once :
    (b from to span : ℤ) (rs : List BlockRange)
    → InI64 from
    → InI64 to
    → InI64 span
    → bounded_block_ranges from to span ≡ ok rs
    → count_holding b rs ≡ (if leb_ℤ from b && leb_ℤ b to then 1 else 0)
bounded_block_ranges-covers_once b from to span rs hf ht hs e =
    let (rs', e', parts) =
      bounded_block_ranges-IsPartition from to span hf ht hs (span_positive from to span rs e) in
    let same : rs' ≡ rs = cc in rw (← same) (IsPartition-count b span from to rs' parts)
