-- ===== src/Tray/Dotted.antt =====
-- src-tauri/src/lib.rs: the icon that `icon_with_dot` returns.
use native.Mathlib.Nat.{mul-le-mul_right, mul-le-mul_left}
use klaayguard.Prelude.{
  ℕ, ◌+◌, ◌-◌, ◌*◌, ◌^◌, ◌≤◌, ◌<◌, ◌≡◌, refl, ap, ◌∙◌, Bool, true, some, leb, ◌&&◌, length,
  if◌then◌else◌, map_some, min, arith,
}
use klaayguard.Tray.Icon.{Image, Color, dist, le_i32, signed, r, dx, dy, in_dot, icon_with_dot}
use klaayguard.Tray.Pixels.{get_elem?, channel}
use klaayguard.Tray.Disc.{rows_lem}

-- Below 2 ^ 31 the order of the `i32` is that of the numbers.
signed_small : (n : ℕ) → n < 2 ^ 31 → signed n ≡ n + 2 ^ 31
signed_small n h = omega arith

le_i32_small : (a b : ℕ) → a < 2 ^ 31 → b < 2 ^ 31 → le_i32 a b ≡ leb a b
le_i32_small a b ha hb = ground (arith, signed_small a ha, signed_small b hb)

leb_zero : (y : ℕ) → leb 0 y ≡ true
leb_zero y = ground arith

square_le : (a b : ℕ) → a ≤ b → a * a ≤ b * b
square_le a b h = omega (arith, mul-le-mul_right a h, mul-le-mul_left b h)

area_le : (a b c : ℕ) → a ≤ c → b ≤ c → a * b ≤ c * c
area_le a b c h k = omega (arith, mul-le-mul_right b h, mul-le-mul_left c k)

dist_lt : (x c n : ℕ) → x < n → c < n → n ≤ 2 ^ 15 → dist x c ≤ 2 ^ 15 - 1
dist_lt x c n h k l = omega arith

module _ (radius : ℕ → ℕ) (base : Image) (color : Color) where
  -- the distance of a pixel to the centre of the dot is at most its radius
  abbrev pub disc : ℕ → ℕ → Bool
  disc x y =
      leb
        (dx radius base color x * dx radius base color x
          + dy radius base color y * dy radius base color y)
        (r radius base color * r radius base color)

  pub record Dotted : Type 0 where
    pub out : Image
    pub returns : icon_with_dot radius base color ≡ some out
    pub same_width : out.width ≡ base.width
    pub same_height : out.height ≡ base.height
    pub same_length : length out.rgba ≡ length base.rgba
    pub bytes :
        (x y b : ℕ)
        → x < base.width
        → y < base.height
        → b < 4
        → get_elem? out.rgba ((y * base.width + x) * 4 + b) ≡ (
            if disc x y
            then some (channel color b)
            else get_elem? base.rgba ((y * base.width + x) * 4 + b))

  in_dot-disc :
      (x y : ℕ)
      → base.width ≤ 2 ^ 15
      → base.height ≤ 2 ^ 15
      → radius (min base.width base.height) < min base.width base.height
      → x < base.width
      → y < base.height
      → in_dot radius base color x y ≡ disc x y
  unfolding in_dot
  in_dot-disc x y hw hh hr hx hy =
      le_i32_small _ _
        (omega (
          arith,
          square_le _ _
              (dist_lt x (base.width - r radius base color - 1) base.width hx (omega arith) hw),
          square_le _ _
              (dist_lt y (base.height - r radius base color - 1) base.height hy (omega arith) hh),
        ))
        (omega (arith, square_le (r radius base color) (2 ^ 15) (omega (arith, hr))))

  -- For an icon of at most 2 ^ 15 pixels a side with four bytes for each pixel, and a radius below the shorter side:
  -- no write is out of range and no number wraps, so `icon_with_dot` returns. The icon has the size of the base;
  -- each pixel has the colour if it lies in the disc of the radius about the centre near the lower right corner,
  -- and else the bytes of the base.
  pub icon_with_dot-Dotted :
      base.width ≤ 2 ^ 15
      → base.height ≤ 2 ^ 15
      → length base.rgba ≡ base.width * base.height * 4
      → ((n : ℕ) → 0 < n → radius n < n)
      → Dotted
  unfolding icon_with_dot
  icon_with_dot-Dotted hw hh hl hr =
      let p =
        rows_lem radius base color (omega (arith, area_le base.width base.height (2 ^ 15) hw hh))
          base.height 0 base.rgba (omega arith) hl in
      record {
        out = record base { rgba = p.after };
        returns = ap (map_some (λ s. record base { rgba = s })) p.returns;
        same_width = refl;
        same_height = refl;
        same_length = p.same_length;
        bytes = λ x y b hx hy hb.
            p.bytes x y b hx hy hb
            ∙ ap
                (λ d.
                  if d
                  then some (channel color b)
                  else get_elem? base.rgba ((y * base.width + x) * 4 + b))
                (ap (λ t. t && in_dot radius base color x y) (leb_zero y)
                  ∙ in_dot-disc x y hw hh (hr (min base.width base.height) (omega arith)) hx hy);
      }
