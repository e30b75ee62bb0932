-- ===== src/Tray/Decimal.antt =====
-- src-tauri/src/lib.rs: the numbers of the countdown. The fuel of `decimal` is enough for its digits.
use klaayguard.Prelude.{
  ℕ, zero, suc, ◌+◌, ◌/◌, ◌%◌, ◌<◌, ◌≡◌, Bool, true, false, [], ◌∷◌, leb, arith, Bool-cases, inl,
  inr, ap, sym, ◌∙◌,
}
use klaayguard.Text.{Text}
use klaayguard.Tray.{digits, decimal}

abbrev branch : ℕ → ℕ → Text → Bool → Text
branch fuel n out b = elim b [
  | true ↦ (b'0' + n % 10) ∷ out
  | false ↦ digits fuel (n / 10) ((b'0' + n % 10) ∷ out)
]

none_below : (n : ℕ) → n < 0 → ⊥
none_below n h = omega arith

digits-agree : (f g n : ℕ) (out : Text) → n < f → n < g → digits f n out ≡ digits g n out
digits-agree zero g n out h k = absurd (none_below n h)
digits-agree (suc f) zero n out h k = absurd (none_below n k)
digits-agree (suc f) (suc g) n out h k = elim (Bool-cases (leb n 9)) [
  | inl e ↦ ap (branch f n out) e ∙ sym (ap (branch g n out) e)
  | inr e ↦
      ap (branch f n out) e
      ∙ (digits-agree f g (n / 10) ((b'0' + n % 10) ∷ out) (ground arith) (ground arith)
          ∙ sym (ap (branch g n out) e))
]

-- More fuel writes the same digits.
pub decimal-enough_fuel : (fuel n : ℕ) → n < fuel → digits fuel n [] ≡ decimal n
decimal-enough_fuel fuel n h = digits-agree fuel (suc n) n [] h (omega arith)
