-- ===== src/Disk/Octal.antt =====
-- src-tauri/src/lib.rs: `unescape` of `parse_proc_mounts` against the escapes that the kernel writes.
use klaayguard.Prelude.{
  ℕ, ◌+◌, ◌/◌, ◌%◌, ◌≡◌, refl, ◌∙◌, ap, sym, Bool, true, false, [], ◌∷◌, ◌++◌, arith, all, ltb,
  ◌==◌, if◌then◌else◌, Bool-cases, inl, inr, ==_iff, flat_map, append-nil,
}
use klaayguard.Text.{Text}
use klaayguard.Text.Utf8.{
  encode_utf8, decode_from, from_utf8_lossy, as_bytes, is_scalar, decode_from-encode_utf8,
}
use klaayguard.Disk.Mounts.{octal_value, is_escape, unescape_bytes, unescape}

-- a backslash and the three octal digits of the byte
abbrev pub octal : ℕ → Text
octal c = b'\\' ∷ (b'0' + c / 64) ∷ (b'0' + c / 8 % 8) ∷ (b'0' + c % 8) ∷ []

module _ (escaped : ℕ → Bool) where
  abbrev pub escape_char : ℕ → Text
  escape_char c = if escaped c then octal c else c ∷ []

  abbrev pub escape : Text → Text
  escape = flat_map escape_char

-- a character that begins no escape
unescape_bytes-plain :
    (c : ℕ) (s : Text)
    → (c == b'\\') ≡ false
    → unescape_bytes (c ∷ s) ≡ encode_utf8 c ++ unescape_bytes s
unfolding unescape_bytes
unescape_bytes-plain c [] h = sym (append-nil (encode_utf8 c))
unescape_bytes-plain c (x ∷ []) h = refl
unescape_bytes-plain c (x ∷ y ∷ []) h = refl
unescape_bytes-plain c (x ∷ y ∷ z ∷ s) h =
    ap
      (λ (b : Bool). elim b [
        | true ↦ octal_value x y z ∷ unescape_bytes s
        | false ↦ encode_utf8 c ++ unescape_bytes (x ∷ y ∷ z ∷ s)
      ])
      (no_escape x y z)
  where
    no_escape : (x y z : ℕ) → is_escape c x y z ≡ false
    no_escape x y z = rw h refl

unescape_bytes-escape :
    (c x y z : ℕ) (s : Text)
    → is_escape c x y z ≡ true
    → unescape_bytes (c ∷ x ∷ y ∷ z ∷ s) ≡ octal_value x y z ∷ unescape_bytes s
unfolding unescape_bytes
unescape_bytes-escape c x y z s h =
    ap
      (λ (b : Bool). elim b [
        | true ↦ octal_value x y z ∷ unescape_bytes s
        | false ↦ encode_utf8 c ++ unescape_bytes (x ∷ y ∷ z ∷ s)
      ])
      h

encode_utf8-ascii : (c : ℕ) → ltb c 0x80 ≡ true → encode_utf8 c ≡ c ∷ []
unfolding encode_utf8
encode_utf8-ascii c h = rw h refl

unescape_bytes-octal :
    (c : ℕ) (s : Text)
    → ltb c 0x80 ≡ true
    → unescape_bytes (octal c ++ s) ≡ encode_utf8 c ++ unescape_bytes s
unescape_bytes-octal c s h = rw (encode_utf8-ascii c h) (
    unescape_bytes-escape b'\\' (b'0' + c / 64) (b'0' + c / 8 % 8) (b'0' + c % 8) s (ground arith)
    ∙ ap (λ v. v ∷ unescape_bytes s) (omega arith))

-- What is escaped is ASCII, and a backslash always is.
pub record IsEscaping (escaped : ℕ → Bool) : Type 0 where
  pub backslash : escaped b'\\' ≡ true
  pub ascii : (c : ℕ) → escaped c ≡ true → ltb c 0x80 ≡ true

module _ (escaped : ℕ → Bool) (good : IsEscaping escaped) where
  unescape_bytes-escape_char :
      (c : ℕ) (s : Text)
      → unescape_bytes (escape_char escaped c ++ s) ≡ encode_utf8 c ++ unescape_bytes s
  unescape_bytes-escape_char c s = elim (Bool-cases (escaped c)) [
    | inl e ↦ rw e (unescape_bytes-octal c s (good.ascii c e))
    | inr e ↦ rw e (
        unescape_bytes-plain c s (elim (Bool-cases (c == b'\\')) [
          | inl q ↦ absurd (cc (e, good.backslash, (==_iff c b'\\').0 q))
          | inr q ↦ q
        ]))
  ]

  unescape_bytes-all : (s : Text) → unescape_bytes (escape escaped s) ≡ as_bytes s
  unescape_bytes-all [] = unfold unescape_bytes in refl
  unescape_bytes-all (c ∷ s) =
      unescape_bytes-escape_char c (escape escaped s)
      ∙ ap (λ v. encode_utf8 c ++ v) (unescape_bytes-all s)

from_utf8_lossy-as_bytes : (s : Text) → all is_scalar s ≡ true → from_utf8_lossy (as_bytes s) ≡ s
from_utf8_lossy-as_bytes [] h = unfold decode_from in refl
from_utf8_lossy-as_bytes (c ∷ s) h =
    decode_from-encode_utf8 c (as_bytes s) (ground arith)
    ∙ ap (λ v. c ∷ v) (from_utf8_lossy-as_bytes s (ground arith))

-- `unescape` undoes the octal escapes of a field of /proc/mounts: a text of Unicode scalar values comes back, whatever
-- ASCII characters of it were written as octal escapes, as long as a backslash is one of them.
pub unescape-escape :
    (escaped : ℕ → Bool) (s : Text)
    → IsEscaping escaped
    → all is_scalar s ≡ true
    → unescape (escape escaped s) ≡ s
unfolding unescape
unescape-escape escaped s good h =
    rw (unescape_bytes-all escaped good s) (from_utf8_lossy-as_bytes s h)
