-- ===== src/Storage/Redaction.antt =====
-- `sanitize_provider_error` of backend/crates/storage/src/provider_health.rs: the text of a
-- provider's error without the secrets of its address.
use coin_listener.Prelude.{
  ℕ, zero, suc, ◌-◌, [], ◌∷◌, ◌++◌, Option, none, some, if◌then◌else◌, ◌==◌, length, take, drop,
}
use coin_listener.Prelude.Text.{Text, codes, starts_with}

abbrev pub provider_last_error_max_chars : ℕ
provider_last_error_max_chars = 500

-- `replace`: every occurrence from the left, `skip` the characters of one that are still to pass.
unfoldable pub replace_from : Text → Text → ℕ → Text → Text
replace_from needle by skip [] = []
replace_from needle by (suc skip) (c ∷ t) = replace_from needle by skip t
replace_from needle by zero (c ∷ t) =
    let kept = replace_from needle by zero t in
    let replaced = replace_from needle by (length needle - 1) t in
    if starts_with needle (c ∷ t) then by ++ replaced else c ∷ kept

unfoldable pub replace : Text → Text → Text → Text
replace needle by t = replace_from needle by zero t

-- `find` of a character: what starts at its first occurrence.
unfoldable pub from_char : ℕ → Text → Option Text
from_char c [] = none
from_char c (d ∷ t) = let later = from_char c t in if d == c then some (d ∷ t) else later

abbrev pub or_empty : Option Text → Text
or_empty none = []
or_empty (some t) = t

-- What follows the value after a marker: from the next `&`, else from the next space.
unfoldable pub after_value : Text → Text
unfolding from_char
after_value after_marker = elim (from_char b'&' after_marker) [
  | some t ↦ t
  | none ↦ or_empty (from_char b' ' after_marker)
]

-- The text before the first occurrence of the marker, and what follows the occurrence.
unfoldable pub split_at_marker : Text → Text → Option (Text × Text)
split_at_marker marker [] = none
split_at_marker marker (c ∷ t) =
    let later = split_at_marker marker t in
    if starts_with marker (c ∷ t)
    then some ([], drop (length marker) (c ∷ t))
    else elim later [ none ↦ none | some (before, after) ↦ some (c ∷ before, after) ]

-- Each round drops at least the marker, so that one for each character is enough.
unfoldable pub redact_loop : ℕ → Text → Text → Text
redact_loop zero marker remaining = remaining
redact_loop (suc fuel) marker remaining = elim (split_at_marker marker remaining) [
  | none ↦ remaining
  | some (before, after_marker) ↦
      before ++ marker ++ redact_loop fuel marker (after_value after_marker)
]

unfoldable pub redact_query_value : Text → Text → Text
redact_query_value input marker = redact_loop (length input) marker input

unfoldable pub sanitize_provider_error : Text → Text
sanitize_provider_error error =
    let sanitized = replace (codes "key=") (codes "key=<redacted>") (
      replace (codes "api_key=") (codes "api_key=<redacted>")
        (replace (codes "token=") (codes "token=<redacted>") error)) in
    let sanitized = redact_query_value sanitized (codes "token=<redacted>") in
    let sanitized = redact_query_value sanitized (codes "api_key=<redacted>") in
    take provider_last_error_max_chars (redact_query_value sanitized (codes "key=<redacted>"))
