-- ===== src/Prelude/Text.antt =====
-- Text as the list of its code points, and the string operations that the source walks texts with.
-- Every text that the code walks byte by byte is ASCII, so that bytes and code points agree there.
use Prim.Native.Char.{code}
use Prim.Native.String.{String}
use coin_listener.Prelude.{
  ℕ, suc, ◌+◌, ◌≡◌, refl, ◌↔◌, Bool, true, false, ◌&&◌, ◌||◌, List, [], ◌∷◌, ◌++◌, map, Option,
  none, some, arith, leb, ◌==◌, if◌then◌else◌, length, all, replicate, Bool-cases, inl, inr, ap,
}

abbrev pub Text : Type 0
Text = List ℕ

abbrev pub codes : String → Text
codes String.[] = []
codes (String.◌∷◌ c s) = code c ∷ codes s

-- `==` on strings.
unfoldable pub text_eq : Text → Text → Bool
text_eq [] [] = true
text_eq [] (d ∷ t) = false
text_eq (c ∷ s) [] = false
text_eq (c ∷ s) (d ∷ t) = c == d && text_eq s t

pub text_eq_iff : (s t : Text) → (text_eq s t ≡ true) ↔ (s ≡ t)
unfolding text_eq
text_eq_iff [] [] = ground arith
text_eq_iff [] (d ∷ t) = ground arith
text_eq_iff (c ∷ s) [] = ground arith
text_eq_iff (c ∷ s) (d ∷ t) = ground (arith, text_eq_iff s t)

pub text_eq_refl : (s : Text) → text_eq s s ≡ true
text_eq_refl s = (text_eq_iff s s).1 refl

-- `strip_prefix`: what follows the prefix.
unfoldable pub strip_prefix : Text → Text → Option Text
strip_prefix [] t = some t
strip_prefix (c ∷ s) [] = none
strip_prefix (c ∷ s) (d ∷ t) = let rest = strip_prefix s t in if c == d then rest else none

unfoldable pub starts_with : Text → Text → Bool
starts_with [] t = true
starts_with (c ∷ s) [] = false
starts_with (c ∷ s) (d ∷ t) = c == d && starts_with s t

-- `contains`: the needle starts at some position.
unfoldable pub contains : Text → Text → Bool
unfolding starts_with
contains needle [] = starts_with needle []
contains needle (c ∷ t) = starts_with needle (c ∷ t) || contains needle t

-- `is_ascii_digit`, `is_ascii_hexdigit`, `is_ascii_alphanumeric`, on one code point.
abbrev pub is_digit : ℕ → Bool
is_digit c = leb b'0' c && leb c b'9'

abbrev pub is_upper : ℕ → Bool
is_upper c = leb b'A' c && leb c b'Z'

abbrev pub is_lower : ℕ → Bool
is_lower c = leb b'a' c && leb c b'z'

abbrev pub is_hex_digit : ℕ → Bool
is_hex_digit c = is_digit c || (leb b'a' c && leb c b'f') || (leb b'A' c && leb c b'F')

abbrev pub is_alphanumeric : ℕ → Bool
is_alphanumeric c = is_digit c || is_upper c || is_lower c

-- `to_ascii_lowercase`.
unfoldable pub lower : ℕ → ℕ
lower c = if is_upper c then c + 32 else c

unfoldable pub to_lower : Text → Text
unfolding lower
to_lower s = map lower s

pub lower_idem : (c : ℕ) → lower (lower c) ≡ lower c
unfolding lower
lower_idem c = ground arith

pub length-to_lower : (s : Text) → length (to_lower s) ≡ length s
unfolding to_lower
length-to_lower [] = refl
length-to_lower (c ∷ s) = omega (arith, length-to_lower s)

pub lower-is_hex_digit : (c : ℕ) → is_hex_digit c ≡ true → is_hex_digit (lower c) ≡ true
unfolding lower
lower-is_hex_digit c h = ground arith

pub all-is_hex_digit-to_lower :
    (s : Text) → all is_hex_digit s ≡ true → all is_hex_digit (to_lower s) ≡ true
unfolding to_lower
all-is_hex_digit-to_lower [] h = refl
all-is_hex_digit-to_lower (c ∷ s) h =
    ground (arith, lower-is_hex_digit c, all-is_hex_digit-to_lower s)

-- `trim_start_matches(c)`: without the leading copies of `c`.
unfoldable pub trim_start : ℕ → Text → Text
trim_start c [] = []
trim_start c (d ∷ s) = let rest = trim_start c s in if c == d then rest else d ∷ s

-- `trim_end_matches(c)`: without the trailing copies of `c`.
trim_cons : ℕ → ℕ → Text → Text
trim_cons c d [] = if c == d then [] else d ∷ []
trim_cons c d (e ∷ r) = d ∷ e ∷ r

unfoldable pub trim_end : ℕ → Text → Text
unfolding trim_cons
trim_end c [] = []
trim_end c (d ∷ s) = trim_cons c d (trim_end c s)

trim_cons_lem :
    (c d : ℕ) (s t : Text) (k : ℕ)
    → s ≡ t ++ replicate k c
    → (j : ℕ) × (d ∷ s ≡ trim_cons c d t ++ replicate j c)
unfolding trim_cons
trim_cons_lem c d s [] k e = elim (Bool-cases (c == d)) [
  | inl h ↦ (suc k, rw h (ground arith))
  | inr h ↦ (k, rw h (ground arith))
]
trim_cons_lem c d s (x ∷ r) k e = (k, ap (λ l. d ∷ l) e)

-- What is cut off at the end is a run of `c`.
pub trim_end_lem : (c : ℕ) (s : Text) → (k : ℕ) × (s ≡ trim_end c s ++ replicate k c)
unfolding trim_end
trim_end_lem c [] = (0, refl)
trim_end_lem c (d ∷ s) = let (k, e) = trim_end_lem c s in trim_cons_lem c d s (trim_end c s) k e

-- `trim` on ASCII: without the white space at both ends.
abbrev is_space : ℕ → Bool
is_space c = c == 32 || (leb 9 c && leb c 13)

unfoldable pub trim_left : Text → Text
trim_left [] = []
trim_left (c ∷ s) = let rest = trim_left s in if is_space c then rest else c ∷ s

unfoldable pub trim_right : Text → Text
trim_right [] = []
trim_right (c ∷ s) = if is_space c && all is_space s then [] else c ∷ trim_right s

unfoldable pub trim : Text → Text
unfolding trim_left trim_right
trim s = trim_right (trim_left s)
