-- ===== src/Prelude/Radix.antt =====
-- Numbers written in a base from 2 up: the digits that `to_string` and `format!("{:x}")` print, most
-- significant first, and the value that `from_str_radix` reads.
use native.Mathlib.Nat.{
  div-add-mod', mod-lt, div-lt_self, pow-suc, pow-zero, mul_comm, mul-le-mul_right,
}
use coin_listener.Prelude.{
  ℕ, zero, suc, ◌+◌, ◌*◌, ◌/◌, ◌%◌, ◌^◌, ◌<◌, ◌≡◌, refl, Bool, true, false, [], ◌∷◌, ◌++◌, arith,
  ltb, ltb→lt, if◌then◌else◌, length, all, Bool-cases, inl, inr, ap, ◌∙◌,
}
use coin_listener.Prelude.Text.{Text}

-- A base with its digits: `digit` prints a number below the base, `value` reads a digit.
pub record Base : Type 0 where
  pub base : ℕ
  pub digit : ℕ → ℕ
  pub value : ℕ → ℕ
  pub is_base_digit : ℕ → Bool
  pub one-lt-base : 1 < base
  pub value-digit : (d : ℕ) → d < base → value (digit d) ≡ d
  pub is_base_digit-digit : (d : ℕ) → d < base → is_base_digit (digit d) ≡ true
  pub value-lt-base : (c : ℕ) → is_base_digit c ≡ true → value c < base

module _ (b : Base) where
  open b use {base, digit, value, is_base_digit}

  -- Reading on from `acc`.
  unfoldable pub read_from : ℕ → Text → ℕ
  read_from acc [] = acc
  read_from acc (c ∷ s) = read_from (acc * base + value c) s

  unfoldable pub read : Text → ℕ
  unfolding read_from
  read s = read_from 0 s

  unfoldable pub print_loop : ℕ → ℕ → Text → Text
  print_loop zero n acc = acc
  print_loop (suc fuel) n acc =
      let rest = print_loop fuel (n / base) (digit (n % base) ∷ acc) in
      if ltb n base then digit n ∷ acc else rest

  -- Each round divides by the base, so that `n + 1` rounds are enough.
  unfoldable pub print : ℕ → Text
  unfolding print_loop
  print n = print_loop (suc n) n []

  div-lt_fuel : (fuel n : ℕ) → n < suc fuel → ltb n base ≡ false → n / base < fuel
  div-lt_fuel fuel n h e =
      let p : 0 < n = ground (arith, b.one-lt-base) in
      omega (arith, div-lt_self {n = n} {k = base} p b.one-lt-base)

  read_from-print_loop :
      (fuel n : ℕ) (acc : Text) → n < fuel → read_from 0 (print_loop fuel n acc) ≡ read_from n acc
  unfolding read_from print_loop
  read_from-print_loop zero n acc h = absurd (omega arith)
  read_from-print_loop (suc fuel) n acc h = elim (Bool-cases (ltb n base)) [
    | inl small ↦
        rw small (ap (λ v. read_from v acc) (omega (arith, b.value-digit n (ltb→lt n base small))))
    | inr big ↦ rw big (
        read_from-print_loop fuel (n / base) (digit (n % base) ∷ acc) (div-lt_fuel fuel n h big)
        ∙ ap (λ v. read_from v acc) (digits_step n))
  ]
    where
      digits_step : (m : ℕ) → m / base * base + value (digit (m % base)) ≡ m
      digits_step m =
          rw (b.value-digit (m % base) (mod-lt m (omega (arith, b.one-lt-base))))
            (div-add-mod' m base)

  -- Reading what was printed gives the number back.
  pub read-print : (n : ℕ) → read (print n) ≡ n
  unfolding read print
  read-print n = read_from-print_loop (suc n) n [] (omega arith)

  all-print_loop :
      (fuel n : ℕ) (acc : Text)
      → n < fuel
      → all is_base_digit acc ≡ true
      → all is_base_digit (print_loop fuel n acc) ≡ true
  unfolding print_loop
  all-print_loop zero n acc h a = a
  all-print_loop (suc fuel) n acc h a = elim (Bool-cases (ltb n base)) [
    | inl small ↦ rw (small, b.is_base_digit-digit n (ltb→lt n base small)) a
    | inr big ↦ rw big (
        all-print_loop fuel (n / base) (digit (n % base) ∷ acc) (div-lt_fuel fuel n h big)
          (rw (b.is_base_digit-digit (n % base) (mod-lt n (omega (arith, b.one-lt-base)))) a))
  ]

  pub all-print : (n : ℕ) → all is_base_digit (print n) ≡ true
  unfolding print
  all-print n = all-print_loop (suc n) n [] (omega arith) refl

  length-print_loop : (fuel n : ℕ) (acc : Text) → length acc < length (print_loop (suc fuel) n acc)
  unfolding print_loop
  length-print_loop zero n acc = elim (Bool-cases (ltb n base)) [
    | inl small ↦ rw small (omega arith)
    | inr big ↦ rw big (omega arith)
  ]
  length-print_loop (suc fuel) n acc = elim (Bool-cases (ltb n base)) [
    | inl small ↦ rw small (omega arith)
    | inr big ↦ rw big (omega (arith, length-print_loop fuel (n / base) (digit (n % base) ∷ acc)))
  ]

  -- A number has at least one digit.
  pub length-print : (n : ℕ) → 0 < length (print n)
  unfolding print
  length-print n = length-print_loop n n []

  pub read_from-append :
      (acc : ℕ) (s t : Text) → read_from acc (s ++ t) ≡ read_from (read_from acc s) t
  unfolding read_from
  read_from-append acc [] t = refl
  read_from-append acc (c ∷ s) t = read_from-append (acc * base + value c) s t

  pow_step : (n : ℕ) → base ^ suc n ≡ base * base ^ n
  pow_step n = rw pow-suc (mul_comm (base ^ n) base)

  pub read_from_lem : (acc : ℕ) (s : Text) → read_from acc s ≡ acc * base ^ length s + read s
  unfolding read
  read_from_lem acc [] = rw pow-zero (omega arith)
  read_from_lem acc (c ∷ s) =
      let ih = read_from_lem (acc * base + value c) s in
      let ih0 = read_from_lem (0 * base + value c) s in
      omega (arith, ih, ih0, ap (λ (t : ℕ). acc * t) (pow_step (length s)))

  -- A text of n digits stands for a number below `base ^ n`.
  pub read-lt-pow : (s : Text) → all is_base_digit s ≡ true → read s < base ^ length s
  unfolding read
  read-lt-pow [] h = rw pow-zero (omega arith)
  read-lt-pow (c ∷ s) h =
      let lt : value c < base = b.value-lt-base c (ground arith) in
      let ih = read-lt-pow s (ground arith) in
      omega (
        arith,
        ih,
        pow_step (length s),
        read_from_lem (0 * base + value c) s,
        mul-le-mul_right (base ^ length s) lt,
      )
