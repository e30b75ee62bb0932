-- ===== src/Windows/Dword.antt =====
-- src-tauri/src/lib.rs: a number of the registry passes through `reg_value_text` as decimal digits, which
-- `parse_reg_sz_u64` reads back.
use klaayguard.Prelude.{
  ℕ, zero, suc, ◌+◌, ◌/◌, ◌%◌, ◌≤◌, ◌<◌, ◌≡◌, refl, sym, ◌∙◌, ap, Bool, true, false, [], ◌∷◌, some,
  leb, inl, inr, arith, all, Bool-cases,
}
use klaayguard.Text.{
  Text, trim, is_whitespace, is_ascii_digit, trim_start_by, trim_end_by, digits_onto, parse_digits,
  parse_u64, u64_max,
}
use klaayguard.Tray.{digits, decimal}

digit_reads :
    (n : ℕ) (out : Text) → n ≤ 9 → digits_onto 0 ((b'0' + n % 10) ∷ out) ≡ digits_onto n out
unfolding is_ascii_digit
digit_reads n out h = ground arith

next_digit_reads :
    (n : ℕ) (out : Text)
    → n ≤ u64_max
    → digits_onto (n / 10) ((b'0' + n % 10) ∷ out) ≡ digits_onto n out
unfolding is_ascii_digit
next_digit_reads n out h = ground arith

abbrev branch : ℕ → ℕ → Text → Bool → Text
branch fuel n out b = elim b [
  | true ↦ (b'0' + n % 10) ∷ out
  | false ↦ digits fuel (n / 10) ((b'0' + n % 10) ∷ out)
]

none_below : (n : ℕ) → n < 0 → ⊥
none_below n h = omega arith

digits_reads :
    (fuel n : ℕ) (out : Text)
    → n < fuel
    → n ≤ u64_max
    → digits_onto 0 (digits fuel n out) ≡ digits_onto n out
digits_reads zero n out h k = absurd (none_below n h)
digits_reads (suc fuel) n out h k = elim (Bool-cases (leb n 9)) [
  | inl e ↦ ap (λ b. digits_onto 0 (branch fuel n out b)) e ∙ digit_reads n out (ground arith)
  | inr e ↦
      ap (λ b. digits_onto 0 (branch fuel n out b)) e
      ∙ (digits_reads fuel (n / 10) ((b'0' + n % 10) ∷ out) (ground arith) (omega arith)
          ∙ next_digit_reads n out k)
]

digit_is_digit : (n : ℕ) → is_ascii_digit (b'0' + n % 10) ≡ true
unfolding is_ascii_digit
digit_is_digit n = ground arith

onto-all :
    (n : ℕ) (out : Text)
    → all is_ascii_digit out ≡ true
    → all is_ascii_digit ((b'0' + n % 10) ∷ out) ≡ true
onto-all n out h = rw (digit_is_digit n) h

digits-all :
    (fuel n : ℕ) (out : Text)
    → all is_ascii_digit out ≡ true
    → all is_ascii_digit (digits fuel n out) ≡ true
digits-all zero n out h = h
digits-all (suc fuel) n out h = elim (Bool-cases (leb n 9)) [
  | inl e ↦ ap (λ b. all is_ascii_digit (branch fuel n out b)) e ∙ onto-all n out h
  | inr e ↦
      ap (λ b. all is_ascii_digit (branch fuel n out b)) e
      ∙ digits-all fuel (n / 10) _ (onto-all n out h)
]

digit_is_black : (c : ℕ) → is_ascii_digit c ≡ true → is_whitespace c ≡ false
unfolding is_ascii_digit is_whitespace
digit_is_black c h = ground arith

trim_end-digits : (s : Text) → all is_ascii_digit s ≡ true → trim_end_by is_whitespace s ≡ s
unfolding trim_end_by
trim_end-digits [] h = refl
trim_end-digits (c ∷ []) h = rw (digit_is_black c (ground arith)) refl
trim_end-digits (c ∷ d ∷ s) h = rw (trim_end-digits (d ∷ s) (ground arith)) refl

trim-digits : (s : Text) → all is_ascii_digit s ≡ true → trim s ≡ s
trim-digits [] h = unfold trim_start_by trim_end_by in refl
trim-digits (c ∷ s) h =
    unfold trim_start_by in rw (digit_is_black c (ground arith)) (trim_end-digits (c ∷ s) h)

parse-digits : (s : Text) → all is_ascii_digit s ≡ true → parse_u64 s ≡ parse_digits s
unfolding parse_u64 is_ascii_digit
parse-digits [] h = refl
parse-digits (c ∷ []) h = refl
parse-digits (c ∷ d ∷ s) h = ground arith

decimal-all : (n : ℕ) → all is_ascii_digit (decimal n) ≡ true
decimal-all n = digits-all (suc n) n [] refl

-- There is a first digit.
parse-onto :
    (fuel n : ℕ) (out : Text)
    → n < fuel
    → parse_digits (digits fuel n out) ≡ digits_onto 0 (digits fuel n out)
parse-onto zero n out h = absurd (none_below n h)
parse-onto (suc fuel) n out h = elim (Bool-cases (leb n 9)) [
  | inl e ↦
      ap (λ b. parse_digits (branch fuel n out b)) e
      ∙ sym (ap (λ b. digits_onto 0 (branch fuel n out b)) e)
  | inr e ↦
      ap (λ b. parse_digits (branch fuel n out b)) e
      ∙ (parse-onto fuel (n / 10) ((b'0' + n % 10) ∷ out) (ground arith)
          ∙ sym (ap (λ b. digits_onto 0 (branch fuel n out b)) e))
]

parse-decimal : (n : ℕ) → n ≤ u64_max → parse_digits (decimal n) ≡ some n
parse-decimal n h =
    parse-onto (suc n) n [] (omega arith) ∙ digits_reads (suc n) n [] (omega arith) h

-- A number of 64 bits is read back from its decimal digits.
pub parse_u64-decimal : (n : ℕ) → n ≤ u64_max → parse_u64 (trim (decimal n)) ≡ some n
parse_u64-decimal n h =
    rw (trim-digits (decimal n) (decimal-all n))
      (parse-digits (decimal n) (decimal-all n) ∙ parse-decimal n h)
