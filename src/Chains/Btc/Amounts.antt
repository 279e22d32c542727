-- ===== src/Chains/Btc/Amounts.antt =====
-- What a Bitcoin transaction moves for an address: the net of the outputs that pay it and of the
-- outputs of its that are spent.
use coin_listener.Prelude.{
  ℕ, ◌+◌, ◌-◌, ◌<◌, ◌≡◌, refl, ◌⊎◌, inl, inr, true, false, not, ◌&&◌, List, [], ◌∷◌, Option, none,
  some, if◌then◌else◌, Bool-cases, arith, ◌∙◌, sym, ap,
}
use mathlib.Core.Path.{subst}
use coin_listener.Prelude.Int.{ℤ, pos, negsuc, pos_part, ltb_ℤ, ◌+ℤ◌, ◌-ℤ◌, abs}
use coin_listener.Prelude.Text.{Text, codes}
use coin_listener.Prelude.Decimal.{show_ℤ}
use coin_listener.Core.Error.{ok, >>=-eq-ok, >>-eq-ok, ensure-eq-ok, eq_of_ok}
use coin_listener.Chains.Btc.{
  spent_after, net_transfer, checked_block_number, BtcVout, BtcVin, BtcTransaction,
  DecodedBtcTransfer, pays_to, received_loop, spent_loop, validate_non_negative_sats, transfer_of,
  classify_btc_transaction, normalize_btc_address, direction_of, eq_ℤ, sats_to_decimal_string,
}

-- The sum of the outputs that pay to the address.
unfoldable pub paid_to : Text → List BtcVout → ℕ
paid_to watched [] = 0
paid_to watched (v ∷ vs) = (if pays_to watched v then pos_part v.value else 0) + paid_to watched vs

-- The outputs that the inputs spend.
abbrev spent_output : Option BtcVout → List BtcVout → List BtcVout
spent_output none rest = rest
spent_output (some v) rest = v ∷ rest

unfoldable pub prevouts : List BtcVin → List BtcVout
prevouts [] = []
prevouts (i ∷ is_) = spent_output i.prevout (prevouts is_)

checked_sats :
    (value : ℤ) (name : Text)
    → validate_non_negative_sats value name ≡ ok tt
    → (n : ℕ) × (value ≡ pos n)
unfolding validate_non_negative_sats
checked_sats value name h = of_test value (ensure-eq-ok (not (ltb_ℤ value (pos 0))) _ h)
  where
    of_test : (v : ℤ) → not (ltb_ℤ v (pos 0)) ≡ true → (n : ℕ) × (v ≡ pos n)
    of_test (pos n) t = (n, refl)
    of_test (negsuc n) t = absurd (ground arith)

added :
    (watched : Text) (v : BtcVout) (n m : ℕ)
    → v.value ≡ pos m
    → (if pays_to watched v then pos n +ℤ v.value else pos n)
      ≡ pos (n + (if pays_to watched v then pos_part v.value else 0))
unfolding ◌+ℤ◌
added watched v n m e = rw e (elim (Bool-cases (pays_to watched v)) [
  | inl yes' ↦ rw yes' (ground arith)
  | inr no' ↦ rw no' (ground arith)
])

received_loop-paid_to :
    (watched : Text) (outputs : List BtcVout) (n : ℕ) (out : ℤ)
    → received_loop watched outputs (pos n) ≡ ok out
    → out ≡ pos (n + paid_to watched outputs)
unfolding received_loop paid_to
received_loop-paid_to watched [] n out h = ground arith
received_loop-paid_to watched (v ∷ vs) n out h =
    let (checked, rest) = >>-eq-ok _ _ h in
    let (m, e) = checked_sats v.value _ checked in
    received_loop-paid_to watched vs (n + (if pays_to watched v then pos_part v.value else 0)) out
      (rw (added watched v n m e) at rest)
    ∙ ap pos (omega arith)

spent_after-paid_to :
    (watched : Text) (prevout : Option BtcVout) (rest : List BtcVout) (n : ℕ) (out : ℤ)
    → spent_after watched prevout (pos n) ≡ ok out
    → (m : ℕ) × (out ≡ pos m)
      × (n + paid_to watched (spent_output prevout rest) ≡ m + paid_to watched rest)
unfolding spent_after paid_to
spent_after-paid_to watched none rest n out h = (n, sym (eq_of_ok h), refl)
spent_after-paid_to watched (some v) rest n out h =
    let (checked, r) = >>-eq-ok _ _ h in
    let (m, e) = checked_sats v.value _ checked in
    (
      n + (if pays_to watched v then pos_part v.value else 0),
      sym (eq_of_ok r) ∙ added watched v n m e,
      omega arith,
    )

spent_loop-paid_to :
    (watched : Text) (inputs : List BtcVin) (n : ℕ) (out : ℤ)
    → spent_loop watched inputs (pos n) ≡ ok out
    → out ≡ pos (n + paid_to watched (prevouts inputs))
unfolding spent_loop prevouts paid_to
spent_loop-paid_to watched [] n out h = ground arith
spent_loop-paid_to watched (i ∷ is_) n out h =
    let (mid, first, rest) = >>=-eq-ok (spent_after watched i.prevout (pos n)) _ h in
    let (m, e, total) = spent_after-paid_to watched i.prevout (prevouts is_) n mid first in
    spent_loop-paid_to watched is_ m out (rw e at rest) ∙ ap pos (sym total)

-- What the transfer says of an address that received `r` and spent `s`.
abbrev IsMove : ℕ → ℕ → DecodedBtcTransfer → Type 0
IsMove r s d =
    ((s < r) × (d.direction ≡ codes "in") × (d.amount_raw ≡ show_ℤ (pos (r - s))))
    ⊎ ((r < s) × (d.direction ≡ codes "out") × (d.amount_raw ≡ show_ℤ (pos (s - r))))
    ⊎ ((r ≡ s) × (d.direction ≡ codes "self") × (d.amount_raw ≡ show_ℤ (pos 0)))

abbrev pub IsNet : ℕ → ℕ → Option DecodedBtcTransfer → Type 0
IsNet r s none = (r ≡ 0) × (s ≡ 0)
IsNet r s (some d) =
    (0 < r + s) × (d.received_raw ≡ show_ℤ (pos r)) × (d.spent_raw ≡ show_ℤ (pos s)) × IsMove r s d

net_cases :
    (r s : ℕ)
    → (direction : Text) (amount : ℤ) → direction ≡ direction_of (pos r -ℤ pos s)
    → amount ≡ abs (pos r -ℤ pos s)
    → ((s < r) × (direction ≡ codes "in") × (amount ≡ pos (r - s)))
      ⊎ ((r < s) × (direction ≡ codes "out") × (amount ≡ pos (s - r)))
      ⊎ ((r ≡ s) × (direction ≡ codes "self") × (amount ≡ pos 0))
unfolding ◌-ℤ◌ abs
net_cases r s direction amount d a = ground arith

transfer_of-IsNet :
    (bigint : Text → Text ⊎ ℤ) (tx : BtcTransaction) (block : ℤ) (r s : ℕ)
    (out : Option DecodedBtcTransfer)
    → transfer_of bigint tx block (pos r) (pos s) ≡ ok out
    → IsNet r s out
unfolding transfer_of
transfer_of-IsNet bigint tx block r s out h =
    of_test (Bool-cases (eq_ℤ (pos r) (pos 0) && eq_ℤ (pos s) (pos 0)))
  where
    both_zero : (eq_ℤ (pos r) (pos 0) && eq_ℤ (pos s) (pos 0)) ≡ true → (r ≡ 0) × (s ≡ 0)
    both_zero t = ground arith

    not_both : (eq_ℤ (pos r) (pos 0) && eq_ℤ (pos s) (pos 0)) ≡ false → 0 < r + s
    not_both t = ground arith

    of_none : none ≡ out → r ≡ 0 → s ≡ 0 → IsNet r s out
    of_none e a b = subst (IsNet r s) e (a, b)

    moved :
        (d : DecodedBtcTransfer) (direction : Text) (amount : ℤ)
        → ((s < r) × (direction ≡ codes "in") × (amount ≡ pos (r - s)))
          ⊎ ((r < s) × (direction ≡ codes "out") × (amount ≡ pos (s - r)))
          ⊎ ((r ≡ s) × (direction ≡ codes "self") × (amount ≡ pos 0))
        → d.direction ≡ direction
        → d.amount_raw ≡ show_ℤ amount
        → IsMove r s d
    moved d direction amount (inl (l, a, b)) e f = inl (l, e ∙ a, f ∙ ap show_ℤ b)
    moved d direction amount (inr (inl (l, a, b))) e f = inr (inl (l, e ∙ a, f ∙ ap show_ℤ b))
    moved d direction amount (inr (inr (l, a, b))) e f = inr (inr (l, e ∙ a, f ∙ ap show_ℤ b))

    of_test :
        ((eq_ℤ (pos r) (pos 0) && eq_ℤ (pos s) (pos 0)) ≡ true)
          ⊎ ((eq_ℤ (pos r) (pos 0) && eq_ℤ (pos s) (pos 0)) ≡ false)
        → IsNet r s out
    of_test (inl t) = let (a, b) = both_zero t in of_none (eq_of_ok (rw t at h)) a b
    of_test (inr t) =
        let (decimal, d, e) =
          >>=-eq-ok (sats_to_decimal_string bigint (show_ℤ (abs (pos r -ℤ pos s)))) _ (rw t at h) in
        subst (IsNet r s) (eq_of_ok e) (
          not_both t,
          refl,
          refl,
          moved (net_transfer tx block (pos r) (pos s) decimal) (direction_of (pos r -ℤ pos s))
              (abs (pos r -ℤ pos s)) (net_cases r s _ _ refl refl) refl refl,
        )

-- A transaction that `classify_btc_transaction` accepts moves, for the watched address, the sum of
-- its outputs that pay the address and the sum of the outputs of the address that it spends: when both
-- are zero there is no transfer; otherwise the transfer names both sums, comes in, goes out or is a
-- self transfer as the one, the other or neither is larger, and its amount is their difference.
pub classify_btc_transaction-IsNet :
    (bigint : Text → Text ⊎ ℤ) (tx : BtcTransaction) (address : Text)
    (out : Option DecodedBtcTransfer)
    → classify_btc_transaction bigint tx address ≡ ok out
    → (watched : Text) × (normalize_btc_address address ≡ ok watched)
      × IsNet (paid_to watched tx.vout) (paid_to watched (prevouts tx.vin)) out
unfolding classify_btc_transaction
classify_btc_transaction-IsNet bigint tx address out h =
    let (watched, w, h) = >>=-eq-ok (normalize_btc_address address) _ h in
    let (block, b, h) = >>=-eq-ok (checked_block_number tx) _ h in
    let (received, r, h) = >>=-eq-ok (received_loop watched tx.vout (pos 0)) _ h in
    let (spent, s, h) = >>=-eq-ok (spent_loop watched tx.vin (pos 0)) _ h in
    let er : received ≡ pos (paid_to watched tx.vout) =
      received_loop-paid_to watched tx.vout 0 received r ∙ ap pos (omega arith) in
    let es : spent ≡ pos (paid_to watched (prevouts tx.vin)) =
      spent_loop-paid_to watched tx.vin 0 spent s ∙ ap pos (omega arith) in
    (
      watched,
      w,
      transfer_of-IsNet bigint tx block (paid_to watched tx.vout)
          (paid_to watched (prevouts tx.vin)) out
          (subst (λ x. transfer_of bigint tx block (pos (paid_to watched tx.vout)) x ≡ ok out) es
            (subst (λ x. transfer_of bigint tx block x spent ≡ ok out) er h)),
    )
