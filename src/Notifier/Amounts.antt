-- ===== src/Notifier/Amounts.antt =====
-- The amount filter of a rule in backend/crates/notifier/src/lib.rs: decimal texts of any length are
-- compared by their digits.
pub mod Numeric
use coin_listener.Prelude.{
  ℕ, Bool, true, false, ◌&&◌, ◌||◌, List, [], ◌∷◌, Option, none, some, ltb, leb, ◌==◌, length, all,
  if◌then◌else◌, not,
}
use coin_listener.Prelude.Text.{Text, codes, is_digit, trim_start}

abbrev pub is_empty : Text → Bool
is_empty [] = true
is_empty (c ∷ s) = false

unfoldable pub normalize_non_negative_integer : Text → Option Text
normalize_non_negative_integer value =
    let normalized = trim_start b'0' value in
    if is_empty value || not (all is_digit value)
    then none
    else if is_empty normalized
    then some (codes "0")
    else some normalized

-- `>=` on strings: byte by byte.
unfoldable pub text_ge : Text → Text → Bool
text_ge s [] = true
text_ge [] (d ∷ t) = false
text_ge (c ∷ s) (d ∷ t) = ltb d c || (c == d && text_ge s t)

unfoldable pub meets : Text → Text → Bool
unfolding text_ge
meets amount minimum =
    if ltb (length minimum) (length amount)
    then true
    else if ltb (length amount) (length minimum)
    then false
    else text_ge amount minimum

unfoldable pub amount_raw_meets_minimum : Option Text → Option Text → Bool
unfolding normalize_non_negative_integer meets
amount_raw_meets_minimum amount_raw none = true
amount_raw_meets_minimum none (some m) = false
amount_raw_meets_minimum (some a) (some m) =
    both (normalize_non_negative_integer a) (normalize_non_negative_integer m)
  where
    both : Option Text → Option Text → Bool
    both (some amount) (some minimum) = meets amount minimum
    both _ _ = false
