-- ===== src/Tray/Disc.antt =====
-- src-tauri/src/lib.rs: what the loops of `icon_with_dot` paint.
use native.Mathlib.Nat.{mul-le-mul_right}
use klaayguard.Prelude.{
  ℕ, zero, suc, ◌+◌, ◌*◌, ◌^◌, ◌≤◌, ◌<◌, ◌≡◌, ◌⊎◌, inl, inr, refl, ap, ◌∙◌, Bool, true, false, List,
  Option, some, leb, ◌==◌, ◌&&◌, ◌||◌, length, if◌then◌else◌, and_then, arith, Bool-cases,
}
use klaayguard.Tray.Icon.{Image, Color, copy_at, in_dot, index, pixel, columns, rows, painted}
use klaayguard.Tray.Pixels.{get_elem?, channel, length-painted, painted_here, painted_apart}

-- A pixel of an earlier row, or of the same row to the left, ends before the next one starts.
cell_before : (w x y y' x' : ℕ) → x < w → y < y' → y * w + x < y' * w + x'
cell_before w x y y' x' hx h = omega (arith, mul-le-mul_right w h)

cell_apart :
    (w x y x' y' : ℕ)
    → x < w
    → x' < w
    → ((y' == y) && (x' == x)) ≡ false
    → (y' * w + x' < y * w + x) ⊎ (y * w + x < y' * w + x')
cell_apart w x y x' y' hx hx' ne =
    ground (arith, cell_before w x y y' x' hx, cell_before w x' y' y x hx', ne)

skipped : {A : Type 0} (p d : Bool) (a o : A) → p ≡ false → o ≡ (if p && d then a else o)
skipped true d a o e = absurd (cc e)
skipped false d a o e = refl

not_hit : {A : Type 0} (p d : Bool) (a o : A) → d ≡ false → o ≡ (if p && d then a else o)
not_hit true true a o e = absurd (cc e)
not_hit true false a o e = refl
not_hit false d a o e = refl

hit : {A : Type 0} (p d : Bool) (a o : A) → p ≡ true → d ≡ true → a ≡ (if p && d then a else o)
hit true true a o e k = refl
hit true false a o e k = absurd (cc k)
hit false d a o e k = absurd (cc e)

copy_at-fits :
    (s : List ℕ) (i : ℕ) (c : Color) → i + 4 ≤ length s → copy_at s i c ≡ some (painted s i c)
copy_at-fits s i c h = ground arith

abbrev only : ℕ → ℕ → ℕ → ℕ → Bool
only x y x' y' = (y' == y) && (x' == x)

only_column : (x y x' y' : ℕ) → only x y x' y' ≡ true → x' ≡ x
only_column x y x' y' e = ground arith

only_row : (x y x' y' : ℕ) → only x y x' y' ≡ true → y' ≡ y
only_row x y x' y' e = ground arith

joined :
    {A : Type 0} (p q r d : Bool) (a o o' out : A)
    → r ≡ (p || q)
    → out ≡ (if q && d then a else o')
    → o' ≡ (if p && d then a else o)
    → out ≡ (if r && d then a else o)
joined true true r true a o o' out er eq ep = grind arith
joined true true r false a o o' out er eq ep = grind arith
joined true false r d a o o' out er eq ep = grind arith
joined false true r true a o o' out er eq ep = grind arith
joined false true r false a o o' out er eq ep = grind arith
joined false false r d a o o' out er eq ep = grind arith

module _ (radius : ℕ → ℕ) (base : Image) (color : Color) where
  abbrev w : ℕ
  w = base.width

  abbrev h : ℕ
  h = base.height

  abbrev pub at : ℕ → ℕ → ℕ → ℕ
  at x y b = (y * w + x) * 4 + b

  -- The run gives a slice in which the pixels of `P` that lie in the dot have the colour, and the others are kept.
  pub record Paints (P : ℕ → ℕ → Bool) (s : List ℕ) (run : Option (List ℕ)) : Type 0 where
    pub after : List ℕ
    pub returns : run ≡ some after
    pub same_length : length after ≡ length s
    pub bytes :
        (x y b : ℕ)
        → x < w
        → y < h
        → b < 4
        → get_elem? after (at x y b) ≡ (
            if P x y && in_dot radius base color x y
            then some (channel color b)
            else get_elem? s (at x y b))

  kept :
      (P : ℕ → ℕ → Bool) (s : List ℕ)
      → ((x y : ℕ) → x < w → y < h → P x y ≡ false)
      → Paints P s (some s)
  kept P s out = record {
    after = s;
    returns = refl;
    same_length = refl;
    bytes = λ x y b hx hy hb. skipped (P x y) _ _ _ (out x y hx hy);
  }

  then_paints :
      (P Q R : ℕ → ℕ → Bool) (s : List ℕ) (run : Option (List ℕ)) (next : List ℕ → Option (List ℕ))
      → ((x y : ℕ) → x < w → y < h → R x y ≡ (P x y || Q x y))
      → (p : Paints P s run) → Paints Q p.after (next p.after)
      → Paints R s (and_then run next)
  then_paints P Q R s run next e p q = record {
    after = q.after;
    returns = ap (λ o. and_then o next) p.returns ∙ q.returns;
    same_length = q.same_length ∙ p.same_length;
    bytes = λ x y b hx hy hb.
        joined (P x y) (Q x y) (R x y) _ _ _ _ _ (e x y hx hy) (q.bytes x y b hx hy hb)
          (p.bytes x y b hx hy hb);
  }

  module _ (small : w * h * 4 ≤ 2 ^ 32) where
    index-at : (x y : ℕ) → x < w → y < h → index radius base color x y ≡ at x y 0
    unfolding index
    index-at x y hx hy = omega (arith, mul-le-mul_right w hy, small)

    at_within : (x y : ℕ) → x < w → y < h → at x y 0 + 4 ≤ w * h * 4
    at_within x y hx hy = omega (arith, mul-le-mul_right w hy)

    in_dot_only :
        (x y x' y' : ℕ)
        → only x y x' y' ≡ true
        → in_dot radius base color x' y' ≡ in_dot radius base color x y
    in_dot_only x y x' y' e =
        ap (λ a. in_dot radius base color a y') (only_column x y x' y' e)
        ∙ ap (in_dot radius base color x) (only_row x y x' y' e)

    at-only : (x y x' y' b : ℕ) → only x y x' y' ≡ true → at x' y' b ≡ at x y 0 + b
    at-only x y x' y' b e =
        ap (λ a. at a y' b) (only_column x y x' y' e)
        ∙ (ap (λ a. at x a b) (only_row x y x' y' e) ∙ omega arith)

    at_apart :
        (x y x' y' b : ℕ)
        → x < w
        → x' < w
        → b < 4
        → only x y x' y' ≡ false
        → (at x' y' b < at x y 0) ⊎ (at x y 0 + 4 ≤ at x' y' b)
    at_apart x y x' y' b hx hx' hb e = elim (cell_apart w x y x' y' hx hx' e) [
      | inl l ↦ inl (omega arith)
      | inr l ↦ inr (omega arith)
    ]

    pixel_in :
        (x y : ℕ) (s : List ℕ)
        → x < w
        → y < h
        → length s ≡ w * h * 4
        → in_dot radius base color x y ≡ true
        → Paints (only x y) s (pixel radius base color x y s)
    pixel_in x y s hx hy hl d = record {
      after = painted s (at x y 0) color;
      returns =
          ap (λ t. if t then copy_at s (index radius base color x y) color else some s) d
          ∙ (ap (λ i. copy_at s i color) (index-at x y hx hy)
              ∙ copy_at-fits s (at x y 0) color (omega (arith, at_within x y hx hy)));
      same_length = length-painted s (at x y 0) color;
      bytes = λ x' y' b hx' hy' hb. elim (Bool-cases (only x y x' y')) [
        | inl e ↦
            painted_here s (at x y 0) color (at x' y' b) b (omega (arith, at_within x y hx hy)) hb
              (at-only x y x' y' b e)
            ∙ hit _ _ _ _ e (in_dot_only x y x' y' e ∙ d)
        | inr e ↦
            painted_apart s (at x y 0) color (at x' y' b) (at_apart x y x' y' b hx hx' hb e)
            ∙ skipped _ _ _ _ e
      ];
    }

    pixel_out :
        (x y : ℕ) (s : List ℕ)
        → in_dot radius base color x y ≡ false
        → Paints (only x y) s (pixel radius base color x y s)
    pixel_out x y s d = record {
      after = s;
      returns = rw d;
      same_length = refl;
      bytes = λ x' y' b hx' hy' hb. elim (Bool-cases (only x y x' y')) [
        | inl e ↦ not_hit _ _ _ _ (in_dot_only x y x' y' e ∙ d)
        | inr e ↦ skipped _ _ _ _ e
      ];
    }

    pixel_lem :
        (x y : ℕ) (s : List ℕ)
        → x < w
        → y < h
        → length s ≡ w * h * 4
        → Paints (only x y) s (pixel radius base color x y s)
    pixel_lem x y s hx hy hl = elim (Bool-cases (in_dot radius base color x y)) [
      | inl d ↦ pixel_in x y s hx hy hl d
      | inr d ↦ pixel_out x y s d
    ]

    columns_lem :
        (n x y : ℕ) (s : List ℕ)
        → x + n ≡ w
        → y < h
        → length s ≡ w * h * 4
        → Paints (λ x' y'. (y' == y) && leb x x') s (columns radius base color n x y s)
    unfolding columns
    columns_lem zero x y s e hy hl = kept _ s (λ x' y' hx' hy'. ground arith)
    columns_lem (suc n) x y s e hy hl =
        let p = pixel_lem x y s (omega arith) hy hl in
        then_paints (only x y) (λ x' y'. (y' == y) && leb (x + 1) x') _ s _ _
          (λ x' y' hx' hy'. ground arith) p
          (columns_lem n (x + 1) y p.after (omega arith) hy (p.same_length ∙ hl))

    pub rows_lem :
        (n y : ℕ) (s : List ℕ)
        → y + n ≡ h
        → length s ≡ w * h * 4
        → Paints (λ x' y'. leb y y') s (rows radius base color n y s)
    unfolding rows
    rows_lem zero y s e hl = kept _ s (λ x' y' hx' hy'. ground arith)
    rows_lem (suc n) y s e hl =
        let p = columns_lem w 0 y s (omega arith) (omega arith) hl in
        then_paints (λ x' y'. (y' == y) && leb 0 x') (λ x' y'. leb (y + 1) y') _ s _ _
          (λ x' y' hx' hy'. ground arith) p
          (rows_lem n (y + 1) p.after (omega arith) (p.same_length ∙ hl))
