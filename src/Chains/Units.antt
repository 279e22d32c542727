-- ===== src/Chains/Units.antt =====
-- Raw integer amounts as decimal texts: `wei_to_decimal_string` of
-- backend/crates/chain-providers/src/evm.rs and `raw_to_decimal_string` of
-- backend/crates/chain-providers/src/tron.rs. The number parser is a parameter: it says what is wrong
-- with a text, if anything is. It may accept more than digits, such as a sign or separators; the code
-- pads and cuts any text that it accepts.
pub mod Exact
use coin_listener.Prelude.{
  ℕ, zero, suc, ◌+◌, ◌-◌, Bool, true, false, List, [], ◌∷◌, ◌++◌, Option, none, some, if◌then◌else◌,
  leb, ◌==◌, length, replicate, take, drop,
}
use coin_listener.Prelude.Int.{ℤ, pos, negsuc}
use coin_listener.Prelude.Text.{Text, codes, trim_end}
use coin_listener.Core.Error.{AppError, AppResult, ok, err, validation}

abbrev pub zero_digit : ℕ
zero_digit = 48

unfoldable pub pad : Text → ℕ → Text
pad raw decimals =
    if leb (length raw) decimals
    then replicate (decimals + 1 - length raw) zero_digit ++ raw
    else raw

unfoldable pub fraction_text : Text → Text
fraction_text [] = codes "0"
fraction_text (c ∷ s) = c ∷ s

unfoldable pub with_point : Text → ℕ → Text
unfolding fraction_text
with_point padded decimals =
    let split_at = length padded - decimals in
    take split_at padded ++ codes "." ++ fraction_text (trim_end zero_digit (drop split_at padded))

-- The two functions differ in `what`, a word of the message.
module _ (parse_error : Text → Option Text) (what : Text) where
  unfoldable pub raw_to_decimal_string : Text → ℤ → AppResult Text
  unfolding pad with_point
  raw_to_decimal_string raw (negsuc n) =
      err (validation (codes "asset decimals cannot be negative"))
  raw_to_decimal_string raw (pos decimals) = parsed (parse_error raw)
    where
      parsed : Option Text → AppResult Text
      parsed (some e) =
          err (validation (codes "invalid decimal " ++ what ++ codes " " ++ raw ++ codes ": " ++ e))
      parsed none = if decimals == 0 then ok raw else ok (with_point (pad raw decimals) decimals)

unfoldable pub wei_to_decimal_string : (Text → Option Text) → Text → ℤ → AppResult Text
unfolding raw_to_decimal_string
wei_to_decimal_string parse_error = raw_to_decimal_string parse_error (codes "balance")
