-- ===== src/Tray/Icon.antt =====
-- src-tauri/src/lib.rs: `icon_with_dot`, the dot of the tray icon. A `u32` and an `i32` wrap around as in the release
-- build; a slice out of range panics, which is none. The radius, 0.30 of the shorter side in `f32`, is a parameter.
use klaayguard.Prelude.{
  ℕ, zero, suc, ◌+◌, ◌-◌, ◌*◌, ◌%◌, ◌^◌, Bool, List, [], ◌∷◌, Option, none, some, leb, length,
  if◌then◌else◌, and_then, map_some, min,
}

pub record Image : Type 0 where
  pub width : ℕ
  pub height : ℕ
  pub rgba : List ℕ

pub record Color : Type 0 where
  pub red : ℕ
  pub green : ℕ
  pub blue : ℕ
  pub alpha : ℕ

-- A write past the end changes nothing.
abbrev pub set : List ℕ → ℕ → ℕ → List ℕ
set [] i v = []
set (x ∷ xs) zero v = v ∷ xs
set (x ∷ xs) (suc i) v = x ∷ set xs i v

unfoldable pub painted : List ℕ → ℕ → Color → List ℕ
painted s i c = set (set (set (set s i c.red) (i + 1) c.green) (i + 2) c.blue) (i + 3) c.alpha

-- `rgba[i..i + 4].copy_from_slice(&color)`
abbrev pub copy_at : List ℕ → ℕ → Color → Option (List ℕ)
copy_at s i c = if leb (i + 4) (length s) then some (painted s i c) else none

abbrev pub dist : ℕ → ℕ → ℕ
dist a b = (a - b) + (b - a)

-- `<=` on the `i32` that two sums of squares wrap around to
abbrev pub signed : ℕ → ℕ
signed n = (n % 2 ^ 32 + 2 ^ 31) % 2 ^ 32

abbrev pub le_i32 : ℕ → ℕ → Bool
le_i32 a b = leb (signed a) (signed b)

module _ (radius : ℕ → ℕ) (base : Image) (color : Color) where
  abbrev pub r : ℕ
  r = radius (min base.width base.height)

  abbrev pub dx : ℕ → ℕ
  dx x = dist x (base.width - r - 1)

  abbrev pub dy : ℕ → ℕ
  dy y = dist y (base.height - r - 1)

  unfoldable pub in_dot : ℕ → ℕ → Bool
  in_dot x y = le_i32 (dx x * dx x + dy y * dy y) (r * r)

  unfoldable pub index : ℕ → ℕ → ℕ
  index x y = (y * base.width + x) * 4 % 2 ^ 32

  abbrev pub pixel : ℕ → ℕ → List ℕ → Option (List ℕ)
  pixel x y s = if in_dot x y then copy_at s (index x y) color else some s

  unfoldable pub columns : ℕ → ℕ → ℕ → List ℕ → Option (List ℕ)
  unfolding in_dot index painted
  columns zero x y s = some s
  columns (suc n) x y s = and_then (pixel x y s) (columns n (x + 1) y)

  unfoldable pub rows : ℕ → ℕ → List ℕ → Option (List ℕ)
  unfolding columns
  rows zero y s = some s
  rows (suc n) y s = and_then (columns base.width 0 y s) (rows n (y + 1))

  unfoldable pub icon_with_dot : Option Image
  unfolding rows
  icon_with_dot = map_some (λ s. record base { rgba = s }) (rows base.height 0 base.rgba)
