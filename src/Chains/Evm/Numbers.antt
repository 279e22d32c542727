-- ===== src/Chains/Evm/Numbers.antt =====
-- The block numbers that a request writes are the ones that an answer's reader gives back.
use coin_listener.Prelude.{
  ℕ, ◌≤◌, ◌<◌, ◌≡◌, refl, Bool, true, false, [], ◌∷◌, ◌++◌, leb, arith, length, not, ◌||◌, leb→le,
}
use coin_listener.Prelude.Int.{ℤ, pos}
use coin_listener.Prelude.Radix
use coin_listener.Prelude.Decimal.{hexadecimal}
use coin_listener.Prelude.Text.{Text, codes, strip_prefix}
use coin_listener.Core.Error.{AppError, ok, err, ensure, validation, ◌>>◌, >>=-eq-ok, err-ne-ok}
use coin_listener.Core.Machine.{i64_max}
use coin_listener.Chains.Evm.{without_0x}
use coin_listener.Chains.Evm.Quantities.{is_empty, too_large, hex_digits, parse_hex_quantity_to_i64}
use coin_listener.Chains.Evm.Logs.{hex_text}

le→leb : (a b : ℕ) → a ≤ b → leb a b ≡ true
le→leb a b h = ground arith

gt→leb : (a b : ℕ) → b < a → leb a b ≡ false
gt→leb a b h = ground arith

hex_digits-hex_text : (n : ℕ) → hex_digits (hex_text n) ≡ ok (Radix.print hexadecimal n)
unfolding hex_digits hex_text without_0x strip_prefix
hex_digits-hex_text n =
    rw (Radix.all-print hexadecimal n)
      (of_digits (Radix.print hexadecimal n) (Radix.length-print hexadecimal n))
  where
    of_digits :
        (s : Text)
        → 0 < length s
        → (ensure
              (not (is_empty s || not true))
              (validation (codes "invalid hex quantity " ++ hex_text n))
            >> ok s)
          ≡ ok s
    of_digits [] h = absurd (omega arith)
    of_digits (c ∷ s) h = refl

-- A block number that `to_rpc_params` can write, `0x` and its hexadecimal digits, is read back as it
-- was written when 63 bits hold it, and is refused otherwise; whatever the text, a number that is read
-- is not negative and within those bits.
pub parse_hex_quantity_to_i64-hex_text :
    ((n : ℕ) → n ≤ i64_max → parse_hex_quantity_to_i64 (hex_text n) ≡ ok (pos n))
    × ((n : ℕ)
        → i64_max < n
        → parse_hex_quantity_to_i64 (hex_text n) ≡ err (too_large (hex_text n)))
    × ((hex : Text) (value : ℤ)
        → parse_hex_quantity_to_i64 hex ≡ ok value
        → (n : ℕ) × (value ≡ pos n) × (n ≤ i64_max))
unfolding parse_hex_quantity_to_i64
parse_hex_quantity_to_i64-hex_text = (fits, over, bounded)
  where
    fits : (n : ℕ) → n ≤ i64_max → parse_hex_quantity_to_i64 (hex_text n) ≡ ok (pos n)
    fits n h = rw (hex_digits-hex_text n, Radix.read-print hexadecimal n, le→leb n i64_max h) refl

    over :
        (n : ℕ)
        → i64_max < n
        → parse_hex_quantity_to_i64 (hex_text n) ≡ err (too_large (hex_text n))
    over n h = rw (hex_digits-hex_text n, Radix.read-print hexadecimal n, gt→leb n i64_max h) refl

    of_test :
        (n : ℕ) (t : Bool) (e : AppError) (value : ℤ)
        → leb n i64_max ≡ t
        → (ensure t e >> ok (pos n)) ≡ ok value
        → (value ≡ pos n) × (n ≤ i64_max)
    of_test n true e value h k = (cc, leb→le n i64_max h)
    of_test n false e value h k = absurd (err-ne-ok k)

    bounded :
        (hex : Text) (value : ℤ)
        → parse_hex_quantity_to_i64 hex ≡ ok value
        → (n : ℕ) × (value ≡ pos n) × (n ≤ i64_max)
    bounded hex value h =
        let (digits, d, rest) = >>=-eq-ok (hex_digits hex) _ h in
        let (e, le) = of_test (Radix.read hexadecimal digits) _ _ value refl rest in
        (Radix.read hexadecimal digits, e, le)
