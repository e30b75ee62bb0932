-- ===== src/Text.antt =====
-- The `str` and `char` methods that the sources call, on texts as lists of Unicode scalar values.
use Prim.Native.Char.{code}
use Prim.Native.String.{String}
use klaayguard.Prelude.{
  ℕ, ◌+◌, ◌-◌, ◌*◌, ◌/◌, ◌%◌, ◌^◌, Bool, true, false, not, ◌&&◌, ◌||◌, List, [], ◌∷◌, ◌++◌, Option,
  none, some, leb, ◌==◌, within, if◌then◌else◌, map, any, filter, is_empty, map_some,
}
pub mod Laws
pub mod Path
pub mod Split
pub mod Utf8

abbrev pub Text : Type 0
Text = List ℕ

-- A literal of the source.
abbrev pub codes : String → Text
codes String.[] = []
codes (String.◌∷◌ c s) = code c ∷ codes s

-- `char::is_whitespace`: the property White_Space.
unfoldable pub is_whitespace : ℕ → Bool
is_whitespace c =
    within 0x09 0x0d c
    || c == 0x20
    || c == 0x85
    || c == 0xa0
    || c == 0x1680
    || within 0x2000 0x200a c
    || c == 0x2028
    || c == 0x2029
    || c == 0x202f
    || c == 0x205f
    || c == 0x3000

-- `char::is_control`: the category Cc.
unfoldable pub is_control : ℕ → Bool
is_control c = leb c 0x1f || within 0x7f 0x9f c

unfoldable pub is_ascii_digit : ℕ → Bool
is_ascii_digit c = within b'0' b'9' c

unfoldable pub is_ascii_alphanumeric : ℕ → Bool
is_ascii_alphanumeric c = within b'0' b'9' c || within b'a' b'z' c || within b'A' b'Z' c

unfoldable pub is_ascii_hexdigit : ℕ → Bool
is_ascii_hexdigit c = within b'0' b'9' c || within b'a' b'f' c || within b'A' b'F' c

unfoldable pub lower : ℕ → ℕ
lower c = if within b'A' b'Z' c then c + 32 else c

abbrev pub to_ascii_lowercase : Text → Text
to_ascii_lowercase = map lower

-- `==` on `str`
unfoldable pub eq_text : Text → Text → Bool
eq_text [] [] = true
eq_text (a ∷ s) (b ∷ t) = a == b && eq_text s t
eq_text _ _ = false

-- `contains(&[&str])` and the alternatives of a `match` on text
abbrev pub one_of : Text → List Text → Bool
one_of s = any (λ t. eq_text s t)

-- `Some(t) == o`
abbrev pub is_text : Option Text → Text → Bool
is_text none t = false
is_text (some s) t = eq_text s t

unfoldable pub starts_with : Text → Text → Bool
starts_with s [] = true
starts_with [] (b ∷ t) = false
starts_with (a ∷ s) (b ∷ t) = a == b && starts_with s t

-- `str::contains` of a text
unfoldable pub contains : Text → Text → Bool
unfolding starts_with
contains [] t = starts_with [] t
contains (a ∷ s) t = starts_with (a ∷ s) t || contains s t

-- `str::ends_with`
unfoldable pub ends_with : Text → Text → Bool
unfolding eq_text
ends_with [] t = eq_text [] t
ends_with (a ∷ s) t = eq_text (a ∷ s) t || ends_with s t

abbrev pub contains_char : Text → ℕ → Bool
contains_char s c = any (λ d. d == c) s

-- `strip_prefix`
unfoldable pub strip_prefix : Text → Text → Option Text
strip_prefix s [] = some s
strip_prefix [] (b ∷ t) = none
strip_prefix (a ∷ s) (b ∷ t) = if a == b then strip_prefix s t else none

unfoldable pub trim_start_by : (ℕ → Bool) → Text → Text
trim_start_by p [] = []
trim_start_by p (c ∷ s) = if p c then trim_start_by p s else c ∷ s

abbrev keep_before : (ℕ → Bool) → ℕ → Text → Text
keep_before p c [] = if p c then [] else c ∷ []
keep_before p c (d ∷ s) = c ∷ d ∷ s

unfoldable pub trim_end_by : (ℕ → Bool) → Text → Text
trim_end_by p [] = []
trim_end_by p (c ∷ s) = keep_before p c (trim_end_by p s)

-- `trim`, `trim_end_matches(c)` and `trim_matches(c)`
abbrev pub trim : Text → Text
trim s = trim_end_by is_whitespace (trim_start_by is_whitespace s)

abbrev pub trim_end_matches : ℕ → Text → Text
trim_end_matches c = trim_end_by (λ d. d == c)

abbrev pub trim_start_matches : ℕ → Text → Text
trim_start_matches c = trim_start_by (λ d. d == c)

abbrev pub push_first : ℕ → List Text → List Text
push_first c [] = (c ∷ []) ∷ []
push_first c (w ∷ ws) = (c ∷ w) ∷ ws

-- `split` by a test on characters: one piece more than separators.
unfoldable pub split_by : (ℕ → Bool) → Text → List Text
split_by p [] = [] ∷ []
split_by p (c ∷ s) = let rest = split_by p s in if p c then [] ∷ rest else push_first c rest

abbrev pub split : ℕ → Text → List Text
split c = split_by (λ d. d == c)

abbrev pub split_whitespace : Text → List Text
split_whitespace s = filter (λ w. not (is_empty w)) (split_by is_whitespace s)

-- `split_once(c)`: at the first `c`.
unfoldable pub split_once : ℕ → Text → Option (Text × Text)
split_once c [] = none
split_once c (d ∷ s) =
    if d == c then some ([], s) else map_some (λ (r : Text × Text). (d ∷ r.0, r.1)) (split_once c s)

abbrev strip_cr : Text → Text
strip_cr [] = []
strip_cr (c ∷ []) = if c == b'\r' then [] else c ∷ []
strip_cr (c ∷ d ∷ s) = c ∷ strip_cr (d ∷ s)

-- A final empty piece is no line, and the last piece keeps its `\r`.
abbrev line_pieces : List Text → List Text
line_pieces [] = []
line_pieces ([] ∷ []) = []
line_pieces ((c ∷ s) ∷ []) = (c ∷ s) ∷ []
line_pieces (w ∷ v ∷ ws) = strip_cr w ∷ line_pieces (v ∷ ws)

-- `str::lines`
unfoldable pub lines : Text → List Text
unfolding split_by
lines s = line_pieces (split b'\n' s)

-- `join`
unfoldable pub join : Text → List Text → Text
join sep [] = []
join sep (w ∷ []) = w
join sep (w ∷ v ∷ ws) = w ++ (sep ++ join sep (v ∷ ws))

abbrev pub u64_max : ℕ
u64_max = 2 ^ 64 - 1

-- `parse::<u64>` behind an optional `+`: digits only, and no overflow.
abbrev pub digits_onto : ℕ → Text → Option ℕ
digits_onto acc [] = some acc
digits_onto acc (c ∷ s) =
    let value = acc * 10 + (c - b'0') in
    let rest = digits_onto value s in if is_ascii_digit c && leb value u64_max then rest else none

abbrev strip_plus : Text → Text
strip_plus [] = []
strip_plus (c ∷ []) = c ∷ []
strip_plus (c ∷ d ∷ s) = if c == b'+' then d ∷ s else c ∷ d ∷ s

abbrev pub parse_digits : Text → Option ℕ
parse_digits [] = none
parse_digits (c ∷ s) = digits_onto 0 (c ∷ s)

unfoldable pub parse_u64 : Text → Option ℕ
unfolding is_ascii_digit
parse_u64 s = parse_digits (strip_plus s)

-- `{:02x}` of a byte
abbrev hex_digit : ℕ → ℕ
hex_digit n = if leb n 9 then b'0' + n else b'a' + (n - 10)

unfoldable pub hex_lower : List ℕ → Text
hex_lower [] = []
hex_lower (b ∷ bs) = hex_digit (b / 16) ∷ hex_digit (b % 16) ∷ hex_lower bs

-- `Result<A, String>`
pub data Result (A : Type 0) : Type 0 where
  ok : A → Result A
  err : Text → Result A
