-- ===== src/Update/Schedule.antt =====
-- src-tauri/src/lib.rs: how often the update loop checks.
use klaayguard.Prelude.{
  ℕ, ◌+◌, ◌≤◌, ◌<◌, ◌≡◌, refl, ◌⊎◌, inl, inr, true, false, List, [], ◌∷◌, Option, none, some, arith,
  Bool-cases, In, ap, sym, unwrap_or,
}
use klaayguard.Update.{check_due, turn, update_loop}

-- Each check stands at least a period behind the one before it, or at an earlier time, after the clock
-- has gone back.
abbrev pub Spaced : ℕ → Option ℕ → List ℕ → Type 0
Spaced period last [] = Unit
Spaced period none (t ∷ ts) = Spaced period (some t) ts
Spaced period (some p) (t ∷ ts) = ((p + period ≤ t) ⊎ (t < p)) × Spaced period (some t) ts

turn-due : (period p now : ℕ) → turn period (some p) now ≡ true → (p + period ≤ now) ⊎ (now < p)
unfolding check_due
turn-due period p now h = ground arith

spaced :
    (period : ℕ) (last : Option ℕ) (now : ℕ) (ts : List ℕ)
    → turn period last now ≡ true
    → Spaced period (some now) ts
    → Spaced period last (now ∷ ts)
spaced period none now ts h rest = rest
spaced period (some p) now ts h rest = (turn-due period p now h, rest)

-- However the loop wakes, two checks that follow each other are a period of the system clock apart,
-- but for a clock that has gone back between them.
pub update_loop-Spaced :
    (period : ℕ) (last : Option ℕ) (wakes : List ℕ)
    → Spaced period last (update_loop period last wakes)
unfolding update_loop
update_loop-Spaced period last [] = tt
update_loop-Spaced period last (now ∷ wakes) =
    let checked = update_loop-Spaced period (some now) wakes in
    let skipped = update_loop-Spaced period last wakes in
    elim (Bool-cases (turn period last now)) [
      | inl e ↦ rw e (spaced period last now _ e checked)
      | inr e ↦ rw e skipped
    ]

-- A check covers the time `w`: it stands at `w` or less than a period before it.
abbrev pub Covered : ℕ → Option ℕ → List ℕ → ℕ → Type 0
Covered period last checks w =
    (c : ℕ) × (In c checks ⊎ (last ≡ some c)) × (c ≤ w) × (w < c + period)

not_due : (period p now : ℕ) → turn period (some p) now ≡ false → (p ≤ now) × (now < p + period)
unfolding check_due
not_due period p now h = ground arith

skipped-Covered :
    (period now : ℕ) (last : Option ℕ) (checks : List ℕ)
    → turn period last now ≡ false
    → Covered period last checks now
skipped-Covered period now none checks h = absurd (cc h)
skipped-Covered period now (some p) checks h =
    let (a, b) = not_due period p now h in (p, inr refl, a, b)

checked-Covered :
    (period now w : ℕ) (last : Option ℕ) (checks : List ℕ)
    → Covered period (some now) checks w
    → Covered period last (now ∷ checks) w
checked-Covered period now w last checks (c, inl m, a, b) = (c, inl (inr m), a, b)
checked-Covered period now w last checks (c, inr q, a, b) =
    let same : c ≡ now = ap (λ o. unwrap_or o c) (sym q) in (c, inl (inl same), a, b)

-- Whenever the loop wakes, it has checked in the period before that, or it checks then, if the period
-- is not zero: by the system clock, no wake comes later than a period after the last check unless it
-- checks.
pub update_loop-Covered :
    (period : ℕ) (last : Option ℕ) (wakes : List ℕ) (w : ℕ)
    → 0 < period
    → In w wakes
    → Covered period last (update_loop period last wakes) w
unfolding update_loop
update_loop-Covered period last [] w pos m = absurd m
update_loop-Covered period last (now ∷ wakes) w pos m =
    let checked = λ (n : In w wakes). update_loop-Covered period (some now) wakes w pos n in
    let skipped = λ (n : In w wakes). update_loop-Covered period last wakes w pos n in
    elim (Bool-cases (turn period last now)) [
      | inl e ↦ elim m [
        | inl q ↦ rw e (now, inl (inl refl), omega arith, omega arith)
        | inr n ↦ rw e (checked-Covered period now w last _ (checked n))
      ]
      | inr e ↦ elim m [
        | inl q ↦ rw (e, q) (skipped-Covered period now last _ e)
        | inr n ↦ rw e (skipped n)
      ]
    ]
