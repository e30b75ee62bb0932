-- ===== src/Text/Utf8.antt =====
-- UTF-8 as `char::encode_utf8` writes it and `String::from_utf8_lossy` reads it: bytes that begin no
-- character become U+FFFD, one for each longest start of a character.
use klaayguard.Prelude.{
  ℕ, suc, zero, ◌+◌, ◌-◌, ◌*◌, ◌/◌, ◌%◌, ◌≡◌, ap, Bool, true, ◌&&◌, not, List, [], ◌∷◌, ◌++◌, ltb,
  leb, ◌==◌, within, false, ◌∙◌, Bool-cases, inl, inr, if◌then◌else◌, arith, flat_map,
}
use klaayguard.Text.{Text}

unfoldable pub encode_utf8 : ℕ → List ℕ
encode_utf8 c =
    if ltb c 0x80
    then c ∷ []
    else if ltb c 0x800
    then (0xc0 + c / 64) ∷ (0x80 + c % 64) ∷ []
    else if ltb c 0x10000
    then (0xe0 + c / 4096) ∷ (0x80 + c / 64 % 64) ∷ (0x80 + c % 64) ∷ []
    else (0xf0 + c / 262144) ∷ (0x80 + c / 4096 % 64) ∷ (0x80 + c / 64 % 64) ∷ (0x80 + c % 64) ∷ []

abbrev pub as_bytes : Text → List ℕ
as_bytes = flat_map encode_utf8

-- What has been read of a character: nothing, or the bits so far, how many bytes come behind the next,
-- and the bounds of the next.
pub data Pending : Type 0 where
  idle : Pending
  more : ℕ → ℕ → ℕ → ℕ → Pending

abbrev replacement : ℕ
replacement = 0xfffd

-- the first byte of a character: what is written, and what is pending then
abbrev first_byte : ℕ → Text × Pending
first_byte b =
    if ltb b 0x80
    then (b ∷ [], idle)
    else if within 0xc2 0xdf b
    then ([], more (b - 0xc0) 0 0x80 0xbf)
    else if b == 0xe0
    then ([], more 0 1 0xa0 0xbf)
    else if b == 0xed
    then ([], more 0xd 1 0x80 0x9f)
    else if within 0xe1 0xef b
    then ([], more (b - 0xe0) 1 0x80 0xbf)
    else if b == 0xf0
    then ([], more 0 2 0x90 0xbf)
    else if within 0xf1 0xf3 b
    then ([], more (b - 0xf0) 2 0x80 0xbf)
    else if b == 0xf4
    then ([], more 4 2 0x80 0x8f)
    else (replacement ∷ [], idle)

abbrev accept : ℕ → ℕ → ℕ → Text × Pending
accept bits zero b = ((bits * 64 + (b - 0x80)) ∷ [], idle)
accept bits (suc k) b = ([], more (bits * 64 + (b - 0x80)) k 0x80 0xbf)

-- A byte that does not continue the character is read again as the first of the next.
abbrev restart : Text × Pending → Text × Pending
restart (out, p) = (replacement ∷ out, p)

abbrev step : Pending → ℕ → Text × Pending
step idle b = first_byte b
step (more bits k lo hi) b = if within lo hi b then accept bits k b else restart (first_byte b)

abbrev at_end : Pending → Text
at_end idle = []
at_end (more bits k lo hi) = replacement ∷ []

unfoldable pub decode_from : Pending → List ℕ → Text
decode_from p [] = at_end p
decode_from p (b ∷ bs) = let (out, q) = step p b in out ++ decode_from q bs

abbrev pub from_utf8_lossy : List ℕ → Text
from_utf8_lossy = decode_from idle

-- a Unicode scalar value, which is what a `char` holds
abbrev pub is_scalar : ℕ → Bool
is_scalar c = leb c 0x10ffff && not (within 0xd800 0xdfff c)

module _ (bs : List ℕ) where
  ascii : (c : ℕ) → ltb c 0x80 ≡ true → decode_from idle (c ∷ bs) ≡ c ∷ decode_from idle bs
  unfolding decode_from
  ascii c h = ground arith

  last_byte :
      (bits lo hi b : ℕ)
      → within lo hi b ≡ true
      → decode_from (more bits 0 lo hi) (b ∷ bs) ≡ (bits * 64 + (b - 0x80)) ∷ decode_from idle bs
  unfolding decode_from
  last_byte bits lo hi b h = rw h

next_byte :
    (bs : List ℕ) (bits k lo hi b : ℕ)
    → within lo hi b ≡ true
    → decode_from (more bits (suc k) lo hi) (b ∷ bs)
      ≡ decode_from (more (bits * 64 + (b - 0x80)) k 0x80 0xbf) bs
unfolding decode_from
next_byte bs bits k lo hi b h = rw h

lead_two :
    (bs : List ℕ) (b : ℕ)
    → within 0xc2 0xdf b ≡ true
    → decode_from idle (b ∷ bs) ≡ decode_from (more (b - 0xc0) 0 0x80 0xbf) bs
unfolding decode_from
lead_two bs b h = ground arith

-- the bounds of the second byte, which exclude the overlong forms, the surrogates and what lies above
-- U+10FFFF
abbrev low_three : ℕ → ℕ
low_three q = if q == 0 then 0xa0 else 0x80

abbrev high_three : ℕ → ℕ
high_three q = if q == 0xd then 0x9f else 0xbf

lead_three :
    (bs : List ℕ) (q : ℕ)
    → leb q 0xf ≡ true
    → decode_from idle ((0xe0 + q) ∷ bs) ≡ decode_from (more q 1 (low_three q) (high_three q)) bs
unfolding decode_from
lead_three bs q h = ground arith

abbrev low_four : ℕ → ℕ
low_four q = if q == 0 then 0x90 else 0x80

abbrev high_four : ℕ → ℕ
high_four q = if q == 4 then 0x8f else 0xbf

lead_four :
    (bs : List ℕ) (q : ℕ)
    → leb q 4 ≡ true
    → decode_from idle ((0xf0 + q) ∷ bs) ≡ decode_from (more q 2 (low_four q) (high_four q)) bs
unfolding decode_from
lead_four bs q h = ground arith

module _ (c : ℕ) (bs : List ℕ) where
  one_byte : ltb c 0x80 ≡ true → decode_from idle (encode_utf8 c ++ bs) ≡ c ∷ decode_from idle bs
  unfolding encode_utf8
  one_byte h = rw h (ascii bs c h)

  two_bytes :
      ltb c 0x80 ≡ false
      → ltb c 0x800 ≡ true
      → decode_from idle (encode_utf8 c ++ bs) ≡ c ∷ decode_from idle bs
  unfolding encode_utf8
  two_bytes h k =
      rw (h, k)
        (lead_two ((0x80 + c % 64) ∷ bs) (0xc0 + c / 64) (ground arith)
          ∙ (last_byte bs (0xc0 + c / 64 - 0xc0) 0x80 0xbf (0x80 + c % 64) (ground arith)
              ∙ ap (λ x. x ∷ decode_from idle bs) (omega arith)))

  three_bytes :
      ltb c 0x80 ≡ false
      → ltb c 0x800 ≡ false
      → ltb c 0x10000 ≡ true
      → is_scalar c ≡ true
      → decode_from idle (encode_utf8 c ++ bs) ≡ c ∷ decode_from idle bs
  unfolding encode_utf8
  three_bytes h k l s =
      let q = c / 4096 in
      let rest = (0x80 + c % 64) ∷ bs in
      rw (h, k, l)
        (lead_three ((0x80 + c / 64 % 64) ∷ rest) q (ground arith)
          ∙ (next_byte rest q 0 (low_three q) (high_three q) (0x80 + c / 64 % 64) (ground arith)
              ∙ (last_byte bs (q * 64 + (0x80 + c / 64 % 64 - 0x80)) 0x80 0xbf (0x80 + c % 64)
                    (ground arith)
                  ∙ ap (λ x. x ∷ decode_from idle bs) (omega arith))))

  four_bytes :
      ltb c 0x80 ≡ false
      → ltb c 0x800 ≡ false
      → ltb c 0x10000 ≡ false
      → is_scalar c ≡ true
      → decode_from idle (encode_utf8 c ++ bs) ≡ c ∷ decode_from idle bs
  unfolding encode_utf8
  four_bytes h k l s =
      let q = c / 262144 in
      let second = 0x80 + c / 4096 % 64 in
      let third = 0x80 + c / 64 % 64 in
      let fourth = 0x80 + c % 64 in
      rw (h, k, l)
        (lead_four (second ∷ third ∷ fourth ∷ bs) q (ground arith)
          ∙ (next_byte (third ∷ fourth ∷ bs) q 1 (low_four q) (high_four q) second (ground arith)
              ∙ (next_byte (fourth ∷ bs) (q * 64 + (second - 0x80)) 0 0x80 0xbf third (ground arith)
                  ∙ (last_byte bs ((q * 64 + (second - 0x80)) * 64 + (third - 0x80)) 0x80 0xbf
                        fourth (ground arith)
                      ∙ ap (λ x. x ∷ decode_from idle bs) (omega arith)))))

  -- What is written for a character is read back as it, whatever comes behind.
  pub decode_from-encode_utf8 :
      is_scalar c ≡ true → decode_from idle (encode_utf8 c ++ bs) ≡ c ∷ decode_from idle bs
  decode_from-encode_utf8 s = elim (Bool-cases (ltb c 0x80)) [
    | inl h ↦ one_byte h
    | inr h ↦ elim (Bool-cases (ltb c 0x800)) [
      | inl k ↦ two_bytes h k
      | inr k ↦ elim (Bool-cases (ltb c 0x10000)) [
        | inl l ↦ three_bytes h k l s
        | inr l ↦ four_bytes h k l s
      ]
    ]
  ]
