-- ===== src/Storage/Sql/Upsert.antt =====
-- INSERT … ON CONFLICT … DO UPDATE, for the statements that write one row of a key.
use coin_listener.Prelude.{
  ◌≡◌, refl, Bool, true, false, List, [], ◌∷◌, ◌++◌, Option, none, some, if◌then◌else◌, find, any,
  Bool-cases, inl, inr, arith,
}
use mathlib.Core.Bool.{false≢true}
use coin_listener.Storage.Sql.{update_where}

module _ {ℓ} {R : Type ℓ} where
  -- `test` picks the row that conflicts with `row`.
  unfoldable pub upsert : (R → Bool) → R → (R → R) → List R → List R
  upsert test row set rows = if any test rows then update_where test set rows else rows ++ row ∷ []

  -- The row of the key after the statement.
  abbrev pub upserted : R → (R → R) → Option R → R
  upserted row set none = row
  upserted row set (some r) = set r

  any-find : (test : R → Bool) (rows : List R) → any test rows ≡ false → find test rows ≡ none
  any-find test [] h = refl
  any-find test (r ∷ rows) h = ground (arith, any-find test rows)

  find-append :
      (test : R → Bool) (row : R) (rows : List R)
      → any test rows ≡ false
      → find test (rows ++ row ∷ []) ≡ (if test row then some row else none)
  find-append test row [] h = refl
  find-append test row (r ∷ rows) h = ground (arith, find-append test row rows)

  find-update_where :
      (test : R → Bool) (set : R → R) (rows : List R)
      → ((r : R) → test (set r) ≡ test r)
      → any test rows ≡ true
      → (r : R) × (find test rows ≡ some r)
        × (find test (update_where test set rows) ≡ some (set r))
  unfolding update_where
  find-update_where test set [] keeps h = absurd (false≢true h)
  find-update_where test set (r ∷ rows) keeps h = elim (Bool-cases (test r)) [
    | inl yes' ↦ rw yes' (r, refl, rw (keeps r, yes') refl)
    | inr no' ↦ rw (no', no') (find-update_where test set rows keeps (rw no' at h))
  ]

  pub find-upsert :
      (test : R → Bool) (row : R) (set : R → R) (rows : List R)
      → ((r : R) → test (set r) ≡ test r)
      → test row ≡ true
      → find test (upsert test row set rows) ≡ some (upserted row set (find test rows))
  unfolding upsert
  find-upsert test row set rows keeps own = elim (Bool-cases (any test rows)) [
    | inl yes' ↦ let (r, e, f) = find-update_where test set rows keeps yes' in rw (yes', e) f
    | inr no' ↦ rw (no', any-find test rows no', find-append test row rows no', own) refl
  ]

  find-update_where_other :
      (test other : R → Bool) (set : R → R) (rows : List R)
      → ((r : R) → other (set r) ≡ other r)
      → ((r : R) → test r ≡ true → other r ≡ false)
      → find other (update_where test set rows) ≡ find other rows
  unfolding update_where
  find-update_where_other test other set [] keeps apart = refl
  find-update_where_other test other set (r ∷ rows) keeps apart = elim (Bool-cases (test r)) [
    | inl yes' ↦
        rw (yes', keeps r, apart r yes') (find-update_where_other test other set rows keeps apart)
    | inr no' ↦ rw (no', find-update_where_other test other set rows keeps apart)
  ]

  find-append_other :
      (other : R → Bool) (row : R) (rows : List R)
      → other row ≡ false
      → find other (rows ++ row ∷ []) ≡ find other rows
  find-append_other other row [] h = rw h
  find-append_other other row (r ∷ rows) h = rw (find-append_other other row rows h)

  -- The rows of the other keys are left as they are.
  pub find-upsert_other :
      (test other : R → Bool) (row : R) (set : R → R) (rows : List R)
      → ((r : R) → other (set r) ≡ other r)
      → ((r : R) → test r ≡ true → other r ≡ false)
      → test row ≡ true
      → find other (upsert test row set rows) ≡ find other rows
  unfolding upsert
  find-upsert_other test other row set rows keeps apart own = elim (Bool-cases (any test rows)) [
    | inl yes' ↦ rw yes' (find-update_where_other test other set rows keeps apart)
    | inr no' ↦ rw no' (find-append_other other row rows (apart row own))
  ]
