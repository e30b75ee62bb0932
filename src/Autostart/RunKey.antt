-- ===== src/Autostart/RunKey.antt =====
-- src-tauri/src/lib.rs: `ensure_autostart_entry`, the value "KlaayGuard" of the Run key of Windows. Opening the
-- key, and reading and writing its value, are what the registry gives; a write that fails leaves the value.
use klaayguard.Prelude.{
  ◌≡◌, refl, sym, ap, subst, inl, inr, Bool, true, false, Option, none, some, [], ◌∷◌, ◌++◌,
  if◌then◌else◌, Bool-cases, Option-cases,
}
use klaayguard.Text.{Text, codes, is_text, eq_text, Result, ok, err}
use klaayguard.Text.Laws.{eq_text_iff}

pub record Access : Type 0 where
  pub current_exe : Option Text
  pub opens : Bool
  pub reads : Bool  -- the value is text
  pub writes : Bool

abbrev pub quoted : Text → Text
quoted exe = b'"' ∷ exe ++ (b'"' ∷ [])

abbrev seen : Access → Option Text → Option Text
seen a value = if a.reads then value else none

abbrev set_value : Access → Text → Option Text → Result (Unit {0}) × Option Text
set_value a want value =
    if a.writes then (ok tt, some want) else (err (codes "write Run value"), value)

abbrev repaired : Access → Text → Option Text → Result (Unit {0}) × Option Text
repaired a want value =
    if a.opens
    then (if is_text (seen a value) want then (ok tt, value) else set_value a want value)
    else (err (codes "open Run key"), value)

abbrev started : Access → Option Text → Option Text → Result (Unit {0}) × Option Text
started a value none = (err (codes "no current exe"), value)
started a value (some exe) = repaired a (quoted exe) value

-- the value of the key, before and after
unfoldable pub ensure_autostart_entry : Access → Option Text → Result (Unit {0}) × Option Text
unfolding eq_text
ensure_autostart_entry a value = started a value a.current_exe

-- A run that reports no error leaves the value at the quoted path of this program; one that reports an
-- error leaves it as it was.
abbrev pub Ensured : Access → Option Text → Result (Unit {0}) × Option Text → Type 0
Ensured a value (ok u, after) =
    (exe : Text) × (a.current_exe ≡ some exe) × (after ≡ some (quoted exe))
Ensured a value (err e, after) = after ≡ value

seen_same :
    (b : Bool) (value : Option Text) (want : Text)
    → is_text (if b then value else none) want ≡ true
    → value ≡ some want
seen_same true none want h = absurd (cc h)
seen_same true (some v) want h = ap some ((eq_text_iff v want).0 h)
seen_same false value want h = absurd (cc h)

module _ (a : Access) (exe : Text) (found : a.current_exe ≡ some exe) (value : Option Text) where
  set-Ensured : Ensured a value (set_value a (quoted exe) value)
  set-Ensured = elim (Bool-cases a.writes) [ inl e ↦ rw e (exe, found, refl) | inr e ↦ rw e refl ]

  repaired-Ensured : Ensured a value (repaired a (quoted exe) value)
  repaired-Ensured = elim (Bool-cases a.opens) [
    | inl o ↦ elim (Bool-cases (is_text (seen a value) (quoted exe))) [
      | inl same ↦ rw (o, same) (exe, found, seen_same a.reads value (quoted exe) same)
      | inr other ↦ rw (o, other) set-Ensured
    ]
    | inr o ↦ rw o refl
  ]

pub ensure_autostart_entry-Ensured :
    (a : Access) (value : Option Text) → Ensured a value (ensure_autostart_entry a value)
unfolding ensure_autostart_entry
ensure_autostart_entry-Ensured a value = elim (Option-cases a.current_exe) [
  | inl e ↦ rw e refl
  | inr (exe, e) ↦
      subst (λ o. Ensured a value (started a value o)) (sym e) (repaired-Ensured a exe e value)
]
