-- ===== src/Chains/Evm.antt =====
-- backend/crates/chain-providers/src/evm.rs: hexadecimal texts, topics and transfer drafts.
pub mod Topics
pub mod Quantities
pub mod Logs
pub mod Numbers
use coin_listener.Prelude.{
  ℕ, Bool, true, false, ◌&&◌, ◌||◌, List, [], ◌∷◌, ◌++◌, Option, none, some, if◌then◌else◌, ◌==◌,
  length, all, take, drop, replicate,
}
use coin_listener.Prelude.Int.{ℤ, pos}
use coin_listener.Prelude.Text.{Text, codes, strip_prefix, is_hex_digit, to_lower, text_eq}
use coin_listener.Prelude.Json.{Json, object, string, field, end}
use coin_listener.Core.Error.{AppError, AppResult, ok, err, validation, ◌>>=◌, ◌>>◌, ensure}
use coin_listener.Core.Models.{ScanAddressContext, Asset, AddressEventDraft}

-- `strip_prefix("0x")`, or the error.
abbrev pub ok_or : AppError → Option Text → AppResult Text
ok_or e none = err e
ok_or e (some t) = ok t

unfoldable pub without_0x : AppError → Text → AppResult Text
without_0x missing value = ok_or missing (strip_prefix (codes "0x") value)

unfoldable pub normalize_hex : Text → ℕ → Text → AppResult Text
unfolding without_0x
normalize_hex value expected_len kind = do
  let message = codes "invalid evm " ++ kind ++ codes " " ++ value
  digits ← without_0x (validation (message ++ codes ": missing 0x prefix")) value
  ensure (length digits == expected_len && all is_hex_digit digits) (validation message)
  ok digits

unfoldable pub address_to_topic : Text → AppResult Text
address_to_topic address = do
  digits ← normalize_hex address 40 (codes "address")
  ok (codes "0x000000000000000000000000" ++ to_lower digits)

unfoldable pub topic_to_address : Text → AppResult Text
topic_to_address topic = do
  digits ← normalize_hex topic 64 (codes "topic")
  ensure (all (λ c. c == b'0') (take 24 digits))
      (validation (codes "invalid evm address topic " ++ digits ++ codes ": non-zero padding"))
  ok (codes "0x" ++ drop 24 digits)
