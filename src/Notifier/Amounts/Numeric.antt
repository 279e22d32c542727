-- ===== src/Notifier/Amounts/Numeric.antt =====
-- The amount filter compares the numbers that the texts stand for.
use coin_listener.Notifier.Amounts.{not}
use native.Mathlib.Nat.{pow-le-pow_right, mul-le-mul_right}
use coin_listener.Prelude.{
  ℕ, suc, ◌+◌, ◌*◌, ◌^◌, ◌<◌, ◌≤◌, ◌≡◌, refl, ◌↔◌, Bool, true, false, ◌&&◌, ◌||◌, [], ◌∷◌, Option,
  none, some, arith, ltb, ◌==◌, length, all, Bool-cases, inl, inr, ◌-◌, sym, ◌⊎◌, ◌∙◌,
}
use mathlib.Core.Bool.{false≢true}
use coin_listener.Prelude.Radix
use coin_listener.Prelude.Decimal.{decimal}
use coin_listener.Prelude.Text.{Text, codes, is_digit, trim_start}
use coin_listener.Notifier.Amounts

abbrev value : ℕ → ℕ
value c = decimal.value c

read-cons :
    (c : ℕ) (s : Text) → Radix.read decimal (c ∷ s) ≡ value c * 10 ^ length s + Radix.read decimal s
unfolding Radix.read
read-cons c s = rw one_digit (Radix.read_from_lem decimal (value c) s)
  where
    one_digit : 0 * 10 + value c ≡ value c
    one_digit = omega arith

-- The leading digits decide, unless they are equal.
leading_digits :
    (x y p a b : ℕ)
    → a < p
    → b < p
    → (x < y → x * p + a < y * p + b) × (x ≡ y → (x * p + a ≤ y * p + b) ↔ (a ≤ b))
leading_digits x y p a b ha hb = (
  (λ h. let m : suc x * p ≤ y * p = mul-le-mul_right p h in omega arith),
  (λ e. rw e (omega arith)),
)

digits_step :
    (c d p a b : ℕ) (rest : Bool)
    → is_digit c ≡ true
    → is_digit d ≡ true
    → a < p
    → b < p
    → (rest ≡ true) ↔ (b ≤ a)
    → ((ltb d c || (c == d && rest)) ≡ true) ↔ (value d * p + b ≤ value c * p + a)
digits_step c d p a b rest hc hd ha hb h = elim (Bool-cases (ltb d c)) [
  | inl more ↦
      let less = (leading_digits (value d) (value c) p b a hb ha).0 (ground arith) in
      rw more ((λ t. omega arith), (λ t. refl))
  | inr not_more ↦ rw not_more (elim (Bool-cases (c == d)) [
    | inl same ↦
        let eq' : value d ≡ value c = ground arith in
        let both = (leading_digits (value d) (value c) p b a hb ha).1 eq' in
        rw same ((λ t. both.1 (h.0 t)), (λ t. h.1 (both.0 t)))
    | inr differ ↦
        let less = (leading_digits (value c) (value d) p a b ha hb).0 (ground arith) in
        rw differ ((λ t. absurd (false≢true t)), (λ t. absurd (omega arith)))
  ])
]

-- Texts of digits of one length are in the order of their numbers.
text_ge-read :
    (s t : Text)
    → length s ≡ length t
    → all is_digit s ≡ true
    → all is_digit t ≡ true
    → (Amounts.text_ge s t ≡ true) ↔ (Radix.read decimal t ≤ Radix.read decimal s)
unfolding Amounts.text_ge
text_ge-read [] [] e hs ht = ground arith
text_ge-read [] (d ∷ t) e hs ht = absurd (omega arith)
text_ge-read (c ∷ s) [] e hs ht = absurd (omega arith)
text_ge-read (c ∷ s) (d ∷ t) e hs ht =
    let ds : all is_digit s ≡ true = ground arith in
    let dt : all is_digit t ≡ true = ground arith in
    let e' : length s ≡ length t = omega arith in
    let ih = text_ge-read s t e' ds dt in
    let ls = Radix.read-lt-pow decimal s ds in
    let lt = rw (← e') at (Radix.read-lt-pow decimal t dt) in
    rw (read-cons c s, read-cons d t, ← e')
      (digits_step c d (10 ^ length s) (Radix.read decimal s) (Radix.read decimal t)
        (Amounts.text_ge s t) (ground arith) (ground arith) ls lt ih)

-- A canonical numeral: digits, and no leading zero where there are more than one.
record IsCanonical (s : Text) : Type 0 where
  digits : all is_digit s ≡ true
  nonempty : 0 < length s
  leads : (n : ℕ) → length s ≡ suc (suc n) → 10 ^ suc n ≤ Radix.read decimal s

value_zero : (c : ℕ) → (b'0' == c) ≡ true → (p : ℕ) → value c * p ≡ 0
value_zero c h p = let z : value c ≡ 0 = ground arith in rw z (omega arith)

value_pos : (c : ℕ) → is_digit c ≡ true → (b'0' == c) ≡ false → 1 ≤ value c
value_pos c h k = ground arith

trim_start-read : (s : Text) → Radix.read decimal (trim_start b'0' s) ≡ Radix.read decimal s
unfolding trim_start
trim_start-read [] = refl
trim_start-read (c ∷ s) = elim (Bool-cases (b'0' == c)) [
  | inl zero' ↦
      rw (zero', read-cons c s)
        (omega (arith, trim_start-read s, value_zero c zero' (10 ^ length s)))
  | inr lead ↦ rw lead refl
]

trim_start-leads :
    (s : Text) (n : ℕ)
    → all is_digit s ≡ true
    → length (trim_start b'0' s) ≡ suc n
    → 10 ^ n ≤ Radix.read decimal (trim_start b'0' s)
unfolding trim_start
trim_start-leads [] n h e = absurd (omega arith)
trim_start-leads (c ∷ s) n h e = elim (Bool-cases (b'0' == c)) [
  | inl zero' ↦ rw zero' (trim_start-leads s n (ground arith) (rw zero' at e))
  | inr lead ↦
      let long : length s ≡ n = omega (arith, rw lead at e) in
      let m = mul-le-mul_right (10 ^ length s) (value_pos c (ground arith) lead) in
      rw (lead, read-cons c s, ← long) (omega arith)
]

trim_start-digits : (s : Text) → all is_digit s ≡ true → all is_digit (trim_start b'0' s) ≡ true
unfolding trim_start
trim_start-digits [] h = refl
trim_start-digits (c ∷ s) h = ground (arith, trim_start-digits s)

longer_is_more :
    (a m : Text)
    → IsCanonical a
    → IsCanonical m
    → length m < length a
    → Radix.read decimal m < Radix.read decimal a
longer_is_more a m ca cm h =
    let p = cm.nonempty in
    let lead = ca.leads (length a - 2) (omega arith) in
    let below = Radix.read-lt-pow decimal m cm.digits in
    let pows =
      pow-le-pow_right {n = 10} (omega arith) {i = length m} {j = suc (length a - 2)}
        (omega arith) in
    omega arith

meets_iff :
    (a m : Text)
    → IsCanonical a
    → IsCanonical m
    → (Amounts.meets a m ≡ true) ↔ (Radix.read decimal m ≤ Radix.read decimal a)
meets_iff a m ca cm =
    unfold Amounts.meets in
    elim (Bool-cases (ltb (length m) (length a))) [
      | inl longer ↦
          let more = longer_is_more a m ca cm (ground arith) in
          rw longer ((λ t. omega arith), (λ t. refl))
      | inr not_longer ↦ rw not_longer (elim (Bool-cases (ltb (length a) (length m))) [
        | inl shorter ↦
            let less = longer_is_more m a cm ca (ground arith) in
            rw shorter ((λ t. absurd (false≢true t)), (λ t. absurd (omega arith)))
        | inr same ↦ rw same (text_ge-read a m (ground arith) ca.digits cm.digits)
      ])
    ]

-- A text of digits, at least one.
abbrev pub is_numeral : Text → Bool
is_numeral s = not (Amounts.is_empty s) && all is_digit s

trimmed-IsCanonical :
    (s : Text)
    → all is_digit s ≡ true
    → Amounts.is_empty (trim_start b'0' s) ≡ false
    → IsCanonical (trim_start b'0' s)
trimmed-IsCanonical s h e = record {
  digits = trim_start-digits s h;
  nonempty = nonempty_of (trim_start b'0' s) e;
  leads = λ n l. trim_start-leads s (suc n) h l;
}
  where
    nonempty_of : (t : Text) → Amounts.is_empty t ≡ false → 0 < length t
    nonempty_of [] e = absurd (false≢true (sym e))
    nonempty_of (c ∷ t) e = omega arith

zero-IsCanonical : IsCanonical (codes "0")
zero-IsCanonical = record {
  digits = refl;
  nonempty = omega arith;
  leads = λ n l. absurd (omega arith);
}

-- What the normal form of a text is: none unless it is a numeral, then canonical with its number.
normalize_lem :
    (s : Text)
    → (is_numeral s ≡ false × Amounts.normalize_non_negative_integer s ≡ none)
      ⊎ (is_numeral s ≡ true
          × (t : Text) × (Amounts.normalize_non_negative_integer s ≡ some t)
          × IsCanonical t
          × (Radix.read decimal t ≡ Radix.read decimal s))
unfolding Amounts.normalize_non_negative_integer
normalize_lem s = elim (Bool-cases (is_numeral s)) [
  | inr bad ↦
      inl (
        bad,
        let b : (Amounts.is_empty s || not (all is_digit s)) ≡ true = ground arith in rw b refl,
      )
  | inl good ↦
      let b : (Amounts.is_empty s || not (all is_digit s)) ≡ false = ground arith in
      let d : all is_digit s ≡ true = ground arith in
      elim (Bool-cases (Amounts.is_empty (trim_start b'0' s))) [
        | inl zeros ↦ inr (
          good,
          codes "0",
          rw (b, zeros) refl,
          zero-IsCanonical,
          sym (empty-read (trim_start b'0' s) zeros) ∙ trim_start-read s,
        )
        | inr digits ↦ inr (
          good,
          trim_start b'0' s,
          rw (b, digits) refl,
          trimmed-IsCanonical s d digits,
          trim_start-read s,
        )
      ]
]
  where
    empty-read :
        (t : Text)
        → Amounts.is_empty t ≡ true
        → Radix.read decimal t ≡ Radix.read decimal (codes "0")
    empty-read [] e = unfold Radix.read in refl
    empty-read (c ∷ t) e = absurd (false≢true e)

-- What the filter asks of the two texts: no minimum, or two numerals of which the amount's number
-- is at least the minimum's.
abbrev pub IsAtLeast : Option Text → Option Text → Type 0
IsAtLeast a none = Unit
IsAtLeast none (some m) = ⊥
IsAtLeast (some a) (some m) =
    (is_numeral a ≡ true) × (is_numeral m ≡ true) × (Radix.read decimal m ≤ Radix.read decimal a)

-- The amount filter passes exactly if the rule has no minimum, or amount and minimum are both
-- nonempty texts of decimal digits and the number of the amount is at least that of the minimum;
-- leading zeros do not matter, and neither text has a largest length.
pub amount_raw_meets_minimum_iff :
    (a m : Option Text) → (Amounts.amount_raw_meets_minimum a m ≡ true) ↔ IsAtLeast a m
unfolding Amounts.amount_raw_meets_minimum
amount_raw_meets_minimum_iff a none = ((λ t. tt), (λ t. refl))
amount_raw_meets_minimum_iff none (some m) = ((λ t. absurd (false≢true t)), (λ t. absurd t))
amount_raw_meets_minimum_iff (some a) (some m) = elim (normalize_lem a) [
  | inl (bad, e) ↦ rw e ((λ t. absurd (false≢true t)), (λ t. absurd (false≢true (rw bad at t.0))))
  | inr (good, x, e, cx, vx) ↦ elim (normalize_lem m) [
    | inl (bad, f) ↦
        rw (e, f) ((λ t. absurd (false≢true t)), (λ t. absurd (false≢true (rw bad at t.1))))
    | inr (fine, y, f, cy, vy) ↦
        let i = meets_iff x y cx cy in
        rw (e, f) ((λ t. (good, fine, rw (vx, vy) at (i.0 t))), (λ t. i.1 (rw (vx, vy) t.2)))
  ]
]
