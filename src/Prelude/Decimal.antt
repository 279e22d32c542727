-- ===== src/Prelude/Decimal.antt =====
-- The decimal and the hexadecimal digits, and how the standard library prints integers.
use coin_listener.Prelude.{
  ℕ, suc, ◌+◌, ◌-◌, ◌<◌, ◌≡◌, refl, true, ◌∷◌, arith, ltb, leb, if◌then◌else◌,
}
use coin_listener.Prelude.Int.{ℤ, pos, negsuc}
use coin_listener.Prelude.Radix
use coin_listener.Prelude.Radix.{Base}
use coin_listener.Prelude.Text.{Text, codes, is_digit, is_hex_digit}

abbrev dec_digit : ℕ → ℕ
dec_digit d = 48 + d

abbrev dec_value : ℕ → ℕ
dec_value c = c - 48

pub dec_value-digit : (d : ℕ) → d < 10 → dec_value (dec_digit d) ≡ d
dec_value-digit d h = omega arith

pub is_digit-dec_digit : (d : ℕ) → d < 10 → is_digit (dec_digit d) ≡ true
is_digit-dec_digit d h = ground arith

pub dec_value-lt : (c : ℕ) → is_digit c ≡ true → dec_value c < 10
dec_value-lt c h = ground arith

abbrev pub decimal : Base
decimal = record {
  base = 10;
  digit = dec_digit;
  value = dec_value;
  is_base_digit = is_digit;
  one-lt-base = omega arith;
  value-digit = dec_value-digit;
  is_base_digit-digit = is_digit-dec_digit;
  value-lt-base = dec_value-lt;
}

-- `{:x}` prints lower-case digits; `from_str_radix` and `parse_bytes` read both cases.
abbrev hex_digit : ℕ → ℕ
hex_digit d = if ltb d 10 then 48 + d else 87 + d

abbrev hex_value : ℕ → ℕ
hex_value c = if is_digit c then c - 48 else if leb b'a' c then c - 87 else c - 55

pub hex_value-digit : (d : ℕ) → d < 16 → hex_value (hex_digit d) ≡ d
hex_value-digit d h = ground arith

pub is_hex_digit-hex_digit : (d : ℕ) → d < 16 → is_hex_digit (hex_digit d) ≡ true
is_hex_digit-hex_digit d h = ground arith

pub hex_value-lt : (c : ℕ) → is_hex_digit c ≡ true → hex_value c < 16
hex_value-lt c h = ground arith

abbrev pub hexadecimal : Base
hexadecimal = record {
  base = 16;
  digit = hex_digit;
  value = hex_value;
  is_base_digit = is_hex_digit;
  one-lt-base = omega arith;
  value-digit = hex_value-digit;
  is_base_digit-digit = is_hex_digit-hex_digit;
  value-lt-base = hex_value-lt;
}

-- `to_string` of an unsigned and of a signed integer.
unfoldable pub show_ℕ : ℕ → Text
unfolding Radix.print
show_ℕ n = Radix.print decimal n

unfoldable pub show_ℤ : ℤ → Text
unfolding show_ℕ
show_ℤ (pos n) = show_ℕ n
show_ℤ (negsuc n) = b'-' ∷ show_ℕ (suc n)

show_test : show_ℤ (negsuc 1029) ≡ codes "-1030"
unfolding show_ℤ
show_test = refl
