-- ===== src/Tray/Pixels.antt =====
-- src-tauri/src/lib.rs: the bytes of a pixel that `icon_with_dot` paints.
use klaayguard.Prelude.{
  ℕ, zero, suc, ◌+◌, ◌≤◌, ◌<◌, ◌≡◌, ◌≢◌, ◌⊎◌, inl, inr, refl, ◌∙◌, List, [], ◌∷◌, Option, none,
  some, length, arith,
}
use klaayguard.Tray.Icon.{Color, set, painted}

abbrev pub get_elem? : List ℕ → ℕ → Option ℕ
get_elem? [] i = none
get_elem? (x ∷ xs) zero = some x
get_elem? (x ∷ xs) (suc i) = get_elem? xs i

length-set : (s : List ℕ) (i v : ℕ) → length (set s i v) ≡ length s
length-set [] i v = refl
length-set (x ∷ s) zero v = refl
length-set (x ∷ s) (suc i) v = omega (arith, length-set s i v)

get_elem?-set_self :
    (s : List ℕ) (i j v : ℕ) → i ≡ j → i < length s → get_elem? (set s i v) j ≡ some v
get_elem?-set_self [] i j v e h = absurd (omega (arith, h))
get_elem?-set_self (x ∷ s) zero zero v e h = refl
get_elem?-set_self (x ∷ s) zero (suc j) v e h = absurd (omega (arith, e))
get_elem?-set_self (x ∷ s) (suc i) zero v e h = absurd (omega (arith, e))
get_elem?-set_self (x ∷ s) (suc i) (suc j) v e h =
    get_elem?-set_self s i j v (omega arith) (omega arith)

get_elem?-set_other : (s : List ℕ) (i j v : ℕ) → i ≢ j → get_elem? (set s i v) j ≡ get_elem? s j
get_elem?-set_other [] i j v n = refl
get_elem?-set_other (x ∷ s) zero zero v n = absurd (n refl)
get_elem?-set_other (x ∷ s) zero (suc j) v n = refl
get_elem?-set_other (x ∷ s) (suc i) zero v n = refl
get_elem?-set_other (x ∷ s) (suc i) (suc j) v n = get_elem?-set_other s i j v (omega arith)

pub length-painted : (s : List ℕ) (i : ℕ) (c : Color) → length (painted s i c) ≡ length s
unfolding painted
length-painted s i c = omega (arith, length-set)

-- the byte of a colour
abbrev pub channel : Color → ℕ → ℕ
channel c zero = c.red
channel c (suc zero) = c.green
channel c (suc (suc zero)) = c.blue
channel c _ = c.alpha

module _ (s : List ℕ) (i : ℕ) (c : Color) where
  abbrev one : List ℕ
  one = set s i c.red

  abbrev two : List ℕ
  two = set one (i + 1) c.green

  abbrev three : List ℕ
  three = set two (i + 2) c.blue

  pub painted_here :
      (j b : ℕ)
      → i + 4 ≤ length s
      → b < 4
      → j ≡ i + b
      → get_elem? (painted s i c) j ≡ some (channel c b)
  unfolding painted
  painted_here j zero h k e =
      get_elem?-set_other three (i + 3) j c.alpha (omega arith)
      ∙ (get_elem?-set_other two (i + 2) j c.blue (omega arith)
          ∙ (get_elem?-set_other one (i + 1) j c.green (omega arith)
              ∙ get_elem?-set_self s i j c.red (omega arith) (omega arith)))
  painted_here j (suc zero) h k e =
      get_elem?-set_other three (i + 3) j c.alpha (omega arith)
      ∙ (get_elem?-set_other two (i + 2) j c.blue (omega arith)
          ∙ get_elem?-set_self one (i + 1) j c.green (omega arith) (omega (arith, length-set)))
  painted_here j (suc (suc zero)) h k e =
      get_elem?-set_other three (i + 3) j c.alpha (omega arith)
      ∙ get_elem?-set_self two (i + 2) j c.blue (omega arith) (omega (arith, length-set))
  painted_here j (suc (suc (suc zero))) h k e =
      get_elem?-set_self three (i + 3) j c.alpha (omega arith) (omega (arith, length-set))
  painted_here j (suc (suc (suc (suc b)))) h k e = absurd (omega (arith, k))

  pub painted_apart : (j : ℕ) → (j < i) ⊎ (i + 4 ≤ j) → get_elem? (painted s i c) j ≡ get_elem? s j
  unfolding painted
  painted_apart j k =
      get_elem?-set_other three (i + 3) j c.alpha
        (λ e. elim k [ inl a ↦ omega arith | inr a ↦ omega arith ])
      ∙ (get_elem?-set_other two (i + 2) j c.blue
            (λ e. elim k [ inl a ↦ omega arith | inr a ↦ omega arith ])
          ∙ (get_elem?-set_other one (i + 1) j c.green
                (λ e. elim k [ inl a ↦ omega arith | inr a ↦ omega arith ])
              ∙ get_elem?-set_other s i j c.red
                  (λ e. elim k [ inl a ↦ omega arith | inr a ↦ omega arith ])))
