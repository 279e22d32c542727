-- ===== src/Chains/Evm/Quantities.antt =====
-- The hexadecimal quantities of backend/crates/chain-providers/src/evm.rs: block numbers, log indexes
-- and amounts. `biguint` is `BigUint::parse_bytes` in base 16, with the number as its decimal text.
use coin_listener.Prelude.{Bool, true, false, ◌||◌, not, [], ◌∷◌, ◌++◌, Option, leb, all}
use coin_listener.Prelude.Int.{ℤ, pos, pos_part}
use coin_listener.Prelude.Radix
use coin_listener.Prelude.Decimal.{hexadecimal}
use coin_listener.Prelude.Text.{Text, codes, is_hex_digit}
use coin_listener.Core.Error.{AppError, AppResult, ok, validation, ◌>>=◌, ◌>>◌, ensure}
use coin_listener.Core.Machine.{i64_max, i32_max}
use coin_listener.Chains.Evm.{ok_or, without_0x, normalize_hex}

abbrev pub is_empty : Text → Bool
is_empty [] = true
is_empty (c ∷ s) = false

unfoldable pub hex_digits : Text → AppResult Text
unfolding without_0x
hex_digits hex = do
  let message = codes "invalid hex quantity " ++ hex
  digits ← without_0x (validation (message ++ codes ": missing 0x prefix")) hex
  ensure (not (is_empty digits || not (all is_hex_digit digits))) (validation message)
  ok digits

abbrev pub too_large : Text → AppError
too_large hex =
    validation
      (codes "invalid hex quantity " ++ hex ++ codes ": number too large to fit in target type")

-- `i64::from_str_radix` on digits alone, which are not empty: the value, if 63 bits hold it.
unfoldable pub parse_hex_quantity_to_i64 : Text → AppResult ℤ
unfolding hex_digits
parse_hex_quantity_to_i64 hex = do
  digits ← hex_digits hex
  let value = Radix.read hexadecimal digits
  ensure (leb value i64_max) (too_large hex)
  ok (pos value)

module _ (biguint : Text → Option Text) where
  unfoldable pub parse_hex_u256_to_decimal_string : Text → AppResult Text
  parse_hex_u256_to_decimal_string hex = do
    digits ← hex_digits hex
    ok_or (validation (codes "invalid hex quantity " ++ hex)) (biguint digits)

  unfoldable pub parse_abi_u256_to_decimal_string : Text → Text → AppResult Text
  parse_abi_u256_to_decimal_string hex field_name = do
    digits ← normalize_hex hex 64 field_name
    ok_or (validation (codes "invalid evm " ++ field_name ++ codes " " ++ hex)) (biguint digits)

unfoldable pub parse_required_hex_i64 : Option Text → Text → AppResult ℤ
unfolding parse_hex_quantity_to_i64
parse_required_hex_i64 value field_name = do
  value ← ok_or (validation (codes "invalid erc20 transfer log: missing " ++ field_name)) value
  parse_hex_quantity_to_i64 value

unfoldable pub parse_required_hex_i32 : Option Text → Text → AppResult ℤ
unfolding parse_required_hex_i64
parse_required_hex_i32 value field_name = do
  value ← parse_required_hex_i64 value field_name
  ensure (leb (pos_part value) i32_max) (
      validation (
        codes "invalid erc20 transfer log "
        ++ field_name
        ++ codes ": out of range integral type conversion attempted"))
  ok value
