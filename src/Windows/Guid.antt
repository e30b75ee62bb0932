-- ===== src/Windows/Guid.antt =====
-- src-tauri/src/lib.rs: `parse_guid`, the power scheme of the registry. The digits are checked first, so the
-- number of each field fits its width.
use klaayguard.Prelude.{
  ℕ, ◌+◌, ◌-◌, ◌*◌, Bool, ◌&&◌, List, [], ◌∷◌, ◌++◌, Option, none, some, all, ◌==◌, within,
  if◌then◌else◌,
}
use klaayguard.Text.{Text, trim, trim_start_matches, trim_end_matches, split, is_ascii_hexdigit}
use klaayguard.Device.{byte_len}

-- the value of a hexadecimal digit, and of the digits of a field
abbrev pub hex_value : ℕ → ℕ
hex_value c =
    if within b'0' b'9' c
    then c - b'0'
    else if within b'a' b'f' c
    then c - b'a' + 10
    else c - b'A' + 10

abbrev pub hex_onto : ℕ → Text → ℕ
hex_onto n [] = n
hex_onto n (c ∷ s) = hex_onto (n * 16 + hex_value c) s

-- two digits for a byte
abbrev pub hex_bytes : Text → List ℕ
hex_bytes (a ∷ b ∷ s) = (hex_value a * 16 + hex_value b) ∷ hex_bytes s
hex_bytes _ = []

pub record GuidParts : Type 0 where
  pub d1 : ℕ
  pub d2 : ℕ
  pub d3 : ℕ
  pub d4 : List ℕ

abbrev is_field : ℕ → Text → Bool
is_field n f = byte_len f == n && all is_ascii_hexdigit f

abbrev of_fields : List Text → Option GuidParts
of_fields (a ∷ b ∷ c ∷ d ∷ e ∷ []) =
    if is_field 8 a && (is_field 4 b && (is_field 4 c && (is_field 4 d && is_field 12 e)))
    then some (record {
      d1 = hex_onto 0 a;
      d2 = hex_onto 0 b;
      d3 = hex_onto 0 c;
      d4 = hex_bytes (d ++ e);
    })
    else none
of_fields _ = none

unfoldable pub parse_guid : Text → Option GuidParts
unfolding byte_len is_ascii_hexdigit klaayguard.Text.split_by klaayguard.Text.trim_end_by
    klaayguard.Text.trim_start_by
parse_guid raw = of_fields (split b'-' (trim_end_matches b'}' (trim_start_matches b'{' (trim raw))))
