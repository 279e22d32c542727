-- ===== src/Storage/Sql/Order.antt =====
-- ORDER BY: the rows sorted, those that the order does not tell apart kept as they stand.
use coin_listener.Prelude.{
  ◌≡◌, ◌↔◌, Bool, true, List, [], ◌∷◌, if◌then◌else◌, filter, IsIn, head, tail, Bool-cases, inl,
  inr,
}
use coin_listener.Storage.Sql.{IsIn-cases}

module _ {ℓ} {A : Type ℓ} where
  pub IsIn-filter :
      (test : A → Bool) {a : A} {items : List A}
      → IsIn a (filter test items) ↔ (IsIn a items × (test a ≡ true))
  IsIn-filter test {a = a} {items = items} = (of_filter items, λ (m, t). into m t)
    where
      of_filter : (items : List A) → IsIn a (filter test items) → IsIn a items × (test a ≡ true)
      of_filter [] m = elim m [ ]
      of_filter (x ∷ xs) m = elim (Bool-cases (test x)) [
        | inr no' ↦ let (n, t) = of_filter xs (rw no' at m) in (tail n, t)
        | inl yes' ↦ elim (IsIn-cases (rw yes' at m)) [
          | inl e ↦ rw e (head, yes')
          | inr later ↦ let (n, t) = of_filter xs later in (tail n, t)
        ]
      ]

      into : {items : List A} → IsIn a items → test a ≡ true → IsIn a (filter test items)
      into head t = rw t head
      into (tail {x = x} m) t = elim (Bool-cases (test x)) [
        | inl yes' ↦ rw yes' (tail (into m t))
        | inr no' ↦ rw no' (into m t)
      ]

  IsIn-cons :
      (x : A) {a : A} {xs ys : List A} → (IsIn a xs → IsIn a ys) → IsIn a (x ∷ xs) → IsIn a (x ∷ ys)
  IsIn-cons x step head = head
  IsIn-cons x step (tail m) = tail (step m)

  IsIn-swap : {x y a : A} {xs : List A} → IsIn a (x ∷ y ∷ xs) → IsIn a (y ∷ x ∷ xs)
  IsIn-swap head = tail head
  IsIn-swap (tail head) = head
  IsIn-swap (tail (tail m)) = tail (tail m)

  module _ (before : A → A → Bool) where
    unfoldable pub insert_by : A → List A → List A
    insert_by a [] = a ∷ []
    insert_by a (b ∷ bs) = let rest = insert_by a bs in if before b a then b ∷ rest else a ∷ b ∷ bs

    unfoldable pub order_by : List A → List A
    order_by [] = []
    order_by (a ∷ s) = insert_by a (order_by s)

    insert_by-IsIn : (a : A) (bs : List A) {x : A} → IsIn x (insert_by a bs) ↔ IsIn x (a ∷ bs)
    unfolding insert_by
    insert_by-IsIn a [] = (λ m. m, λ m. m)
    insert_by-IsIn a (b ∷ bs) =
        let (forth, back) = insert_by-IsIn a bs in
        elim (Bool-cases (before b a)) [
          | inr no' ↦ rw no' (λ m. m, λ m. m)
          | inl yes' ↦
              rw yes' (λ m. IsIn-swap (IsIn-cons b forth m), λ m. IsIn-cons b back (IsIn-swap m))
        ]

    -- The sorted rows are the same rows.
    pub order_by-IsIn : (s : List A) {x : A} → IsIn x (order_by s) ↔ IsIn x s
    unfolding order_by
    order_by-IsIn [] = (λ m. m, λ m. m)
    order_by-IsIn (a ∷ s) =
        let (forth, back) = order_by-IsIn s in
        let rest = order_by s in
        (
          λ m. IsIn-cons a forth ((insert_by-IsIn a rest).0 m),
          λ m. (insert_by-IsIn a rest).1 (IsIn-cons a back m),
        )
