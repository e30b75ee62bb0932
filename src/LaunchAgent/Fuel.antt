-- ===== src/LaunchAgent/Fuel.antt =====
-- src-tauri/src/lib.rs: the replacements in the plist. The fuel of `replace` is enough for its text.
use klaayguard.Prelude.{
  ℕ, zero, suc, ◌≤◌, ◌≡◌, refl, sym, ◌∙◌, ap, [], ◌∷◌, ◌++◌, Option, none, some, length, arith,
  Option-cases, inl, inr, some_inj,
}
use klaayguard.Text.{Text, strip_prefix}
use klaayguard.LaunchAgent.{replace_from, replace}

strip-shorter : (s t rest : Text) → strip_prefix s t ≡ some rest → length rest ≤ length s
unfolding strip_prefix
strip-shorter s [] rest h = rw (← some_inj h) (omega arith)
strip-shorter [] (b ∷ t) rest h = absurd (cc (h))
strip-shorter (a ∷ s) (b ∷ t) rest h = ground (arith, strip-shorter s t rest)

strip_shorter_cons :
    (c d : ℕ) (s t rest : Text) → strip_prefix (c ∷ s) (d ∷ t) ≡ some rest → length rest ≤ length s
unfolding strip_prefix
strip_shorter_cons c d s t rest h = ground (arith, strip-shorter s t rest)

too_long : (s : Text) → suc (length s) ≤ 0 → ⊥
too_long s h = omega arith

module _ (d : ℕ) (pattern t : Text) where
  abbrev branch : ℕ → ℕ → Text → Option Text → Text
  branch n c s o = elim o [
    | some rest ↦ t ++ replace_from n (d ∷ pattern) t rest
    | none ↦ c ∷ replace_from n (d ∷ pattern) t s
  ]

  replace_from-agree :
      (n m : ℕ) (s : Text)
      → length s ≤ n
      → length s ≤ m
      → replace_from n (d ∷ pattern) t s ≡ replace_from m (d ∷ pattern) t s
  replace_from-agree zero zero s h k = refl
  replace_from-agree zero (suc m) [] h k = refl
  replace_from-agree (suc n) zero [] h k = refl
  replace_from-agree (suc n) (suc m) [] h k = refl
  replace_from-agree zero (suc m) (c ∷ s) h k = absurd (too_long s h)
  replace_from-agree (suc n) zero (c ∷ s) h k = absurd (too_long s k)
  replace_from-agree (suc n) (suc m) (c ∷ s) h k =
      elim (Option-cases (strip_prefix (c ∷ s) (d ∷ pattern))) [
        | inl e ↦
            ap (branch n c s) e
            ∙ (ap (λ v. c ∷ v) (replace_from-agree n m s (omega arith) (omega arith))
                ∙ sym (ap (branch m c s) e))
        | inr (rest, e) ↦
            ap (branch n c s) e
            ∙ (ap (λ v. t ++ v)
                  (replace_from-agree n m rest
                    (omega (arith, strip_shorter_cons c d s pattern rest e))
                    (omega (arith, strip_shorter_cons c d s pattern rest e)))
                ∙ sym (ap (branch m c s) e))
      ]

  -- A pattern that is not empty: more fuel replaces the same.
  pub replace-enough_fuel :
      (fuel : ℕ) (s : Text)
      → length s ≤ fuel
      → replace_from fuel (d ∷ pattern) t s ≡ replace (d ∷ pattern) t s
  replace-enough_fuel fuel s h = replace_from-agree fuel (length s) s h (omega arith)
