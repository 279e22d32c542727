-- ===== src/Storage/Sql/Count.antt =====
-- How many rows a WHERE clause takes, after the table has changed; unique columns are counts of at
-- most one.
use coin_listener.Prelude.{
  ◌+◌, ◌≤◌, ◌<◌, ◌≡◌, refl, Bool, true, false, List, [], ◌∷◌, ◌++◌, map, arith, if◌then◌else◌, IsIn,
  head, tail, any, All,
}
use coin_listener.Storage.Sql.{update_where, rows_affected}

module _ {ℓ} {R : Type ℓ} where
  pub rows_affected-append :
      (test : R → Bool) (rs qs : List R)
      → rows_affected test (rs ++ qs) ≡ rows_affected test rs + rows_affected test qs
  unfolding rows_affected
  rows_affected-append test [] qs = omega arith
  rows_affected-append test (r ∷ rs) qs = omega (arith, rows_affected-append test rs qs)

  -- No row newly meets the test.
  pub rows_affected-map_le :
      (test : R → Bool) (f : R → R) (rs : List R)
      → ((r : R) → IsIn r rs → test (f r) ≡ true → test r ≡ true)
      → rows_affected test (map f rs) ≤ rows_affected test rs
  unfolding rows_affected
  rows_affected-map_le test f [] h = omega arith
  rows_affected-map_le test f (r ∷ rs) h =
      ground (arith, h r head, rows_affected-map_le test f rs (λ q m. h q (tail m)))

  pub rows_affected-update_where_le :
      (test guard : R → Bool) (set : R → R) (rs : List R)
      → ((r : R) → guard r ≡ true → test (set r) ≡ true → test r ≡ true)
      → rows_affected test (update_where guard set rs) ≤ rows_affected test rs
  unfolding rows_affected update_where
  rows_affected-update_where_le test guard set [] h = omega arith
  rows_affected-update_where_le test guard set (r ∷ rs) h =
      ground (arith, h r, rows_affected-update_where_le test guard set rs h)

  pub rows_affected-any :
      (test : R → Bool) (rs : List R) → any test rs ≡ false → rows_affected test rs ≡ 0
  unfolding rows_affected
  rows_affected-any test [] h = refl
  rows_affected-any test (r ∷ rs) h = ground (arith, rows_affected-any test rs)

  pub rows_affected-IsIn :
      (test : R → Bool) {r : R} {rs : List R}
      → IsIn r rs
      → test r ≡ true
      → 0 < rows_affected test rs
  unfolding rows_affected
  rows_affected-IsIn test head t = rw t (omega arith)
  rows_affected-IsIn test (tail m) t = omega (arith, rows_affected-IsIn test m t)

  -- Where a test takes at most one row, two rows that it takes are one.
  pub eq_of_rows_affected :
      (test : R → Bool) {a b : R} {rs : List R}
      → IsIn a rs
      → IsIn b rs
      → rows_affected test rs ≤ 1
      → test a ≡ true
      → test b ≡ true
      → a ≡ b
  unfolding rows_affected
  eq_of_rows_affected test head head h ta tb = refl
  eq_of_rows_affected test head (tail m) h ta tb =
      absurd (omega (arith, rw ta at h, rows_affected-IsIn test m tb))
  eq_of_rows_affected test (tail m) head h ta tb =
      absurd (omega (arith, rw tb at h, rows_affected-IsIn test m ta))
  eq_of_rows_affected test (tail m) (tail n) h ta tb =
      eq_of_rows_affected test m n (omega arith) ta tb

  -- A unique column stays unique when a row joins whose value is free.
  pub rows_affected-append_le_one :
      (test : R → Bool) (rs : List R) (r : R)
      → rows_affected test rs ≤ 1
      → (test r ≡ true → rows_affected test rs ≡ 0)
      → rows_affected test (rs ++ r ∷ []) ≤ 1
  unfolding rows_affected
  rows_affected-append_le_one test rs r h free =
      rw (rows_affected-append test rs (r ∷ [])) (ground (arith, free))

module _ {ℓ} {R : Type ℓ} (test after guard : R → Bool) (set : R → R)
    (kept : (q : R) → after (if guard q then set q else q) ≡ true → test q ≡ true) where
  rows_affected-updated_le :
      (rs : List R) → rows_affected after (update_where guard set rs) ≤ rows_affected test rs
  unfolding rows_affected update_where
  rows_affected-updated_le [] = omega arith
  rows_affected-updated_le (r ∷ rs) = ground (arith, kept r, rows_affected-updated_le rs)

  -- An UPDATE after which no row newly meets a test, and one row no longer does, leaves fewer.
  pub rows_affected-updated_lt :
      {r : R} {rs : List R}
      → IsIn r rs
      → test r ≡ true
      → after (if guard r then set r else r) ≡ false
      → rows_affected after (update_where guard set rs) < rows_affected test rs
  unfolding rows_affected update_where
  rows_affected-updated_lt {r = r} (head {xs = rs}) t f =
      rw (t, f) (omega (arith, rows_affected-updated_le rs))
  rows_affected-updated_lt (tail {x = q} m) t f =
      ground (arith, kept q, rows_affected-updated_lt m t f)

-- A property of every row after a change of every row, where the change may use that the row stands
-- in the table.
pub All-map_of_IsIn {ℓ κ} :
    {R : Type ℓ} (P : R → Type κ) (f : R → R) (rs : List R)
    → ((r : R) → IsIn r rs → P (f r))
    → All P (map f rs)
All-map_of_IsIn P f [] step = tt
All-map_of_IsIn P f (r ∷ rs) step = (step r head, All-map_of_IsIn P f rs (λ q m. step q (tail m)))
