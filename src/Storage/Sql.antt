-- ===== src/Storage/Sql.antt =====
-- Tables as lists of rows: what an UPDATE and a SELECT with a WHERE clause do.
pub mod Count
pub mod Upsert
pub mod Order
use coin_listener.Prelude.{
  ℕ, ◌+◌, ◌≡◌, refl, Bool, true, List, [], ◌∷◌, ◌++◌, map, arith, if◌then◌else◌, All, IsIn, head,
  tail, ap, Bool-cases, inl, inr, false, ◌⊎◌,
}

module _ {ℓ} {R : Type ℓ} where
  -- UPDATE … SET set WHERE test
  unfoldable pub update_where : (R → Bool) → (R → R) → List R → List R
  update_where test set [] = []
  update_where test set (r ∷ rs) = (if test r then set r else r) ∷ update_where test set rs

  -- The count of the rows that a WHERE clause takes: `rows_affected()`.
  unfoldable pub rows_affected : (R → Bool) → List R → ℕ
  rows_affected test [] = 0
  rows_affected test (r ∷ rs) = (if test r then 1 else 0) + rows_affected test rs

  pub update_where-eq_self :
      (test : R → Bool) (set : R → R) (rs : List R)
      → rows_affected test rs ≡ 0
      → update_where test set rs ≡ rs
  unfolding update_where rows_affected
  update_where-eq_self test set [] h = refl
  update_where-eq_self test set (r ∷ rs) h = elim (Bool-cases (test r)) [
    | inl yes' ↦ absurd (omega (arith, rw yes' at h))
    | inr no' ↦
        rw no' (ap (λ l. r ∷ l) (update_where-eq_self test set rs (omega (arith, rw no' at h))))
  ]

-- A property of every row is kept by an UPDATE that keeps it on each row.
pub All-update_where {ℓ κ} :
    {R : Type ℓ} (P : R → Type κ) (test : R → Bool) (set : R → R) (rs : List R)
    → ((r : R) → P r → test r ≡ true → P (set r))
    → All P rs
    → All P (update_where test set rs)
unfolding update_where
All-update_where P test set [] step h = h
All-update_where P test set (r ∷ rs) step h = elim (Bool-cases (test r)) [
  | inl yes' ↦ rw yes' (step r h.0 yes', All-update_where P test set rs step h.1)
  | inr no' ↦ rw no' (h.0, All-update_where P test set rs step h.1)
]

-- The change may use that the row stands in the table.
pub All-update_where_of_IsIn {ℓ κ} :
    {R : Type ℓ} (P : R → Type κ) (test : R → Bool) (set : R → R) (rs : List R)
    → ((r : R) → IsIn r rs → P r → test r ≡ true → P (set r))
    → All P rs
    → All P (update_where test set rs)
unfolding update_where
All-update_where_of_IsIn P test set [] step h = h
All-update_where_of_IsIn P test set (r ∷ rs) step h =
    let rest = All-update_where_of_IsIn P test set rs (λ q m p t. step q (tail m) p t) h.1 in
    elim (Bool-cases (test r)) [
      | inl yes' ↦ rw yes' (step r head h.0 yes', rest)
      | inr no' ↦ rw no' (h.0, rest)
    ]

pub All-map {ℓ κ} :
    {R : Type ℓ} (P : R → Type κ) (f : R → R) (rs : List R)
    → ((r : R) → P r → P (f r))
    → All P rs
    → All P (map f rs)
All-map P f [] step h = h
All-map P f (r ∷ rs) step h = (step r h.0, All-map P f rs step h.1)

pub All-append {ℓ κ} :
    {R : Type ℓ} (P : R → Type κ) (rs qs : List R) → All P rs → All P qs → All P (rs ++ qs)
All-append P [] qs h k = k
All-append P (r ∷ rs) qs h k = (h.0, All-append P rs qs h.1 k)

pub All-IsIn {ℓ κ} :
    {R : Type ℓ} (P : R → Type κ) {r : R} {rs : List R} → All P rs → IsIn r rs → P r
All-IsIn P h head = h.0
All-IsIn P h (tail m) = All-IsIn P h.1 m

module _ {ℓ} {R : Type ℓ} where
  -- A row that an UPDATE does not take is still there.
  pub IsIn-update_where :
      (test : R → Bool) (set : R → R) {r : R} {rs : List R}
      → IsIn r rs
      → test r ≡ false
      → IsIn r (update_where test set rs)
  unfolding update_where
  IsIn-update_where test set {r = r} head t = rw t head
  IsIn-update_where test set (tail m) t = tail (IsIn-update_where test set m t)

  -- A row that an UPDATE takes is there as the UPDATE leaves it.
  pub IsIn-updated :
      (test : R → Bool) (set : R → R) {r : R} {rs : List R}
      → IsIn r rs
      → test r ≡ true
      → IsIn (set r) (update_where test set rs)
  unfolding update_where
  IsIn-updated test set {r = r} head t = rw t head
  IsIn-updated test set (tail m) t = tail (IsIn-updated test set m t)

  pub IsIn-cases : {r q : R} {rs : List R} → IsIn r (q ∷ rs) → (r ≡ q) ⊎ IsIn r rs
  IsIn-cases head = inl refl
  IsIn-cases (tail m) = inr m

  -- A row after an UPDATE is one that it did not take, or what it made of one that it took.
  pub IsIn-update_where_cases :
      (test : R → Bool) (set : R → R) {r : R} (rs : List R)
      → IsIn r (update_where test set rs)
      → (IsIn r rs × (test r ≡ false)) ⊎ ((q : R) × IsIn q rs × (test q ≡ true) × (r ≡ set q))
  unfolding update_where
  IsIn-update_where_cases test set [] m = elim m [ ]
  IsIn-update_where_cases test set {r = r} (q ∷ rs) m = elim (IsIn-cases m) [
    | inr later ↦ elim (IsIn-update_where_cases test set rs later) [
      | inl (n, no') ↦ inl (tail n, no')
      | inr (k, n, yes', e) ↦ inr (k, tail n, yes', e)
    ]
    | inl first ↦ elim (Bool-cases (test q)) [
      | inl yes' ↦ inr (q, head, yes', rw yes' at first)
      | inr no' ↦ let e : r ≡ q = rw no' at first in inl (rw e head, rw e no')
    ]
  ]

  pub IsIn-map : (f : R → R) {r : R} {rs : List R} → IsIn r rs → f r ≡ r → IsIn r (map f rs)
  IsIn-map f {rs = q ∷ qs} head e = rw e head
  IsIn-map f (tail m) e = tail (IsIn-map f m e)

  pub IsIn-append : {r : R} {rs : List R} (qs : List R) → IsIn r rs → IsIn r (rs ++ qs)
  IsIn-append qs head = head
  IsIn-append qs (tail m) = tail (IsIn-append qs m)

pub IsIn-map_of {ℓ κ} :
    {R : Type ℓ} {S : Type κ} (f : R → S) {r : R} {rs : List R} → IsIn r rs → IsIn (f r) (map f rs)
IsIn-map_of f head = head
IsIn-map_of f (tail m) = tail (IsIn-map_of f m)
