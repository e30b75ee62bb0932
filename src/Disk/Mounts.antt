-- ===== src/Disk/Mounts.antt =====
-- src-tauri/src/lib.rs: `parse_proc_mounts`, with the octal escapes of /proc/mounts.
use klaayguard.Prelude.{
  ℕ, ◌+◌, ◌-◌, ◌*◌, Bool, true, false, ◌&&◌, List, [], ◌∷◌, ◌++◌, Option, none, some, leb, within,
  ◌==◌, filter_map,
}
use klaayguard.Text.{Text, lines, split_whitespace}
use klaayguard.Text.Utf8.{encode_utf8, from_utf8_lossy}
use klaayguard.Disk.{MountEntry}

abbrev pub is_octal : ℕ → Bool
is_octal = within b'0' b'7'

-- `u8::from_str_radix(oct, 8)`, before the check that it fits
abbrev pub octal_value : ℕ → ℕ → ℕ → ℕ
octal_value a b c = ((a - b'0') * 8 + (b - b'0')) * 8 + (c - b'0')

abbrev pub is_escape : ℕ → ℕ → ℕ → ℕ → Bool
is_escape slash a b c =
    slash == b'\\' && (is_octal a && (is_octal b && (is_octal c && leb (octal_value a b c) 255)))

-- An escape is one byte; any other character is the bytes of its encoding.
unfoldable pub unescape_bytes : Text → List ℕ
unescape_bytes [] = []
unescape_bytes (c ∷ []) = encode_utf8 c
unescape_bytes (c ∷ x ∷ []) = encode_utf8 c ++ unescape_bytes (x ∷ [])
unescape_bytes (c ∷ x ∷ y ∷ []) = encode_utf8 c ++ unescape_bytes (x ∷ y ∷ [])
unescape_bytes (c ∷ x ∷ y ∷ z ∷ s) = elim (is_escape c x y z) [
  | true ↦ octal_value x y z ∷ unescape_bytes s
  | false ↦ encode_utf8 c ++ unescape_bytes (x ∷ y ∷ z ∷ s)
]

unfoldable pub unescape : Text → Text
unescape s = from_utf8_lossy (unescape_bytes s)

-- the second and the third of the words of a line
abbrev entry : List Text → Option MountEntry
entry (device ∷ mountpoint ∷ fstype ∷ rest) =
    some (record { mountpoint = unescape mountpoint; fstype = fstype })
entry _ = none

unfoldable pub parse_proc_mounts : Text → List MountEntry
unfolding unescape lines
parse_proc_mounts text = filter_map (λ line. entry (split_whitespace line)) (lines text)
