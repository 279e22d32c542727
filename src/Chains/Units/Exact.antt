-- ===== src/Chains/Units/Exact.antt =====
-- The decimal text of an amount stands for the raw amount, exactly.
use mathlib.Core.Path.{subst}
use coin_listener.Prelude.{
  ℕ, zero, suc, ◌+◌, ◌-◌, ◌*◌, ◌^◌, ◌≤◌, ◌<◌, ◌≡◌, refl, false, [], ◌∷◌, ◌++◌, Option, none, arith,
  leb, ◌==◌, length, replicate, take, drop, Bool-cases, inl, inr, take-append-drop, length-append,
  length-drop, length-take, length-replicate, ap, ◌∙◌, sym,
}
use coin_listener.Prelude.Int.{pos}
use coin_listener.Prelude.Radix
use coin_listener.Prelude.Decimal.{decimal}
use coin_listener.Prelude.{true, ◌&&◌, all, all-append}
use coin_listener.Prelude.Text.{is_digit, Text, codes, trim_end, trim_end_lem}
use coin_listener.Core.Error.{ok}
use coin_listener.Chains.Units
use coin_listener.Chains.Units.{zero_digit}

read-append :
    (s t : Text)
    → Radix.read decimal (s ++ t) ≡ Radix.read decimal s * 10 ^ length t + Radix.read decimal t
read-append s t =
    unfold Radix.read in
    (Radix.read_from-append decimal 0 s t
      ∙ Radix.read_from_lem decimal (Radix.read_from decimal 0 s) t)

read-zeros : (k : ℕ) → Radix.read decimal (replicate k zero_digit) ≡ 0
read-zeros zero = unfold Radix.read in refl
read-zeros (suc k) =
    read-append (zero_digit ∷ []) (replicate k zero_digit)
    ∙ (rw (zero_alone, read-zeros k) (omega arith))
  where
    zero_alone : Radix.read decimal (zero_digit ∷ []) ≡ 0
    zero_alone = unfold Radix.read in refl

pad-read : (raw : Text) (n : ℕ) → Radix.read decimal (Units.pad raw n) ≡ Radix.read decimal raw
unfolding Units.pad
pad-read raw n = elim (Bool-cases (leb (length raw) n)) [
  | inl short ↦
      rw
        (
          short,
          read-append (replicate (n + 1 - length raw) zero_digit) raw,
          read-zeros (n + 1 - length raw),
        )
        (omega arith)
  | inr long ↦ rw long refl
]

pad-length : (raw : Text) (n : ℕ) → n < length (Units.pad raw n)
unfolding Units.pad
pad-length raw n = elim (Bool-cases (leb (length raw) n)) [
  | inl short ↦
      rw
        (
          short,
          length-append (replicate (n + 1 - length raw) zero_digit) raw,
          length-replicate (n + 1 - length raw) zero_digit,
        )
        (omega arith)
  | inr long ↦ rw long (ground arith)
]

-- A text with a point that stands for `value` units of `10 ^ -decimals`.
pub record IsDecimal (out : Text) (decimals value : ℕ) : Type 0 where
  pub integer : Text
  pub fraction : Text
  pub parts : out ≡ integer ++ codes "." ++ fraction
  pub has_integer : 0 < length integer
  pub has_fraction : 0 < length fraction
  pub integer_digits : all is_digit integer ≡ true
  pub fraction_digits : all is_digit fraction ≡ true
  pub fits : length fraction ≤ decimals
  pub exact :
      Radix.read decimal integer * 10 ^ decimals
        + Radix.read decimal fraction * 10 ^ (decimals - length fraction)
      ≡ value

-- The fraction that is printed, against the digits behind the point.
trimmed_fraction :
    (t digits : Text) (k : ℕ)
    → digits ≡ t ++ replicate k zero_digit
    → 0 < length digits
    → let f = Units.fraction_text t in
      (0 < length f)
      × (length f ≤ length digits)
      × (Radix.read decimal f * 10 ^ (length digits - length f) ≡ Radix.read decimal digits)
unfolding Units.fraction_text
trimmed_fraction [] digits k e h =
    (omega arith, omega arith, rw (e, read-zeros k, zero_alone) (omega arith))
  where
    zero_alone : Radix.read decimal (codes "0") ≡ 0
    zero_alone = unfold Radix.read in refl
trimmed_fraction (c ∷ t) digits k e h =
    let l : length digits ≡ length (c ∷ t) + k =
      rw (e, length-append (c ∷ t) (replicate k zero_digit), length-replicate k zero_digit) refl in
    let left : length digits - length (c ∷ t) ≡ k = omega (arith, l) in
    (
      omega arith,
      omega (arith, l),
      rw
          (
            left,
            e,
            read-append (c ∷ t) (replicate k zero_digit),
            read-zeros k,
            length-replicate k zero_digit,
          )
          (omega arith),
    )

zeros-digits : (k : ℕ) → all is_digit (replicate k zero_digit) ≡ true
zeros-digits zero = refl
zeros-digits (suc k) = ground (arith, zeros-digits k)

pad-digits : (raw : Text) (n : ℕ) → all is_digit raw ≡ true → all is_digit (Units.pad raw n) ≡ true
unfolding Units.pad
pad-digits raw n h = elim (Bool-cases (leb (length raw) n)) [
  | inl short ↦
      rw
        (
          short,
          all-append is_digit (replicate (n + 1 - length raw) zero_digit) raw,
          zeros-digits (n + 1 - length raw),
          h,
        )
        refl
  | inr long ↦ rw long h
]

-- The parts of a text of digits are texts of digits.
parts-digits :
    (s t u : Text)
    → u ≡ s ++ t
    → all is_digit u ≡ true
    → (all is_digit s ≡ true) × (all is_digit t ≡ true)
parts-digits s t u e h =
    let both : (all is_digit s && all is_digit t) ≡ true =
      sym (all-append is_digit s t) ∙ ap (all is_digit) (sym e) ∙ h in
    (ground arith, ground arith)

fraction_text-digits :
    (t : Text) → all is_digit t ≡ true → all is_digit (Units.fraction_text t) ≡ true
unfolding Units.fraction_text
fraction_text-digits [] h = refl
fraction_text-digits (c ∷ t) h = h

with_point-IsDecimal :
    (padded : Text) (decimals : ℕ)
    → 0 < decimals
    → decimals < length padded
    → all is_digit padded ≡ true
    → IsDecimal (Units.with_point padded decimals) decimals (Radix.read decimal padded)
unfolding Units.with_point
with_point-IsDecimal padded decimals p h all_digits =
    let n = length padded - decimals in
    let digits = drop n padded in
    let l : length digits ≡ decimals = omega (arith, length-drop n padded) in
    let (k, e) = trim_end_lem zero_digit digits in
    let (left, right) =
      parts-digits (take n padded) digits padded (sym (take-append-drop n padded)) all_digits in
    let (kept, zeros) =
      parts-digits (trim_end zero_digit digits) (replicate k zero_digit) digits e right in
    let (some_digit, short, value) =
      trimmed_fraction (trim_end zero_digit digits) digits k e (omega (arith, l)) in
    record {
      integer = take n padded;
      fraction = Units.fraction_text (trim_end zero_digit digits);
      parts = refl;
      has_integer = omega (arith, length-take n padded);
      has_fraction = some_digit;
      integer_digits = left;
      fraction_digits = fraction_text-digits (trim_end zero_digit digits) kept;
      fits = omega (arith, l);
      exact =
          ap (λ v. Radix.read decimal (take n padded) * 10 ^ decimals + v) (rw l at value)
          ∙ ap (λ m. Radix.read decimal (take n padded) * 10 ^ m + Radix.read decimal digits)
              (sym l)
          ∙ sym (read-append (take n padded) digits)
          ∙ ap (Radix.read decimal) (take-append-drop n padded);
    }

-- For an asset with decimals, the text of a raw amount of decimal digits, which the number parser
-- accepts, has decimal digits on both sides of its point, at most `decimals` of them behind it, and
-- its value is exactly the raw amount's number of units: only zeros at the end are dropped.
pub raw_to_decimal_string-IsDecimal :
    (parse_error : Text → Option Text) (what raw : Text) (decimals : ℕ)
    → 0 < decimals
    → parse_error raw ≡ none
    → all is_digit raw ≡ true
    → (out : Text) × (Units.raw_to_decimal_string parse_error what raw (pos decimals) ≡ ok out)
      × IsDecimal out decimals (Radix.read decimal raw)
unfolding Units.raw_to_decimal_string
raw_to_decimal_string-IsDecimal parse_error what raw decimals p accepted digits =
    let some_decimals : (decimals == 0) ≡ false = ground arith in
    (
      Units.with_point (Units.pad raw decimals) decimals,
      rw accepted (rw some_decimals refl),
      subst (IsDecimal (Units.with_point (Units.pad raw decimals) decimals) decimals)
          (pad-read raw decimals)
          (with_point-IsDecimal (Units.pad raw decimals) decimals p (pad-length raw decimals)
            (pad-digits raw decimals digits)),
    )
