-- ===== src/Posture/Policy.antt =====
-- src-tauri/src/lib.rs: the units of the password policy.
use klaayguard.Prelude.{
  ℕ, ◌+◌, ◌*◌, ◌≡◌, ◌≢◌, ◌≤◌, ◌<◌, inl, inr, refl, Option, none, some, arith, ◌==◌, Bool-cases,
  and_then, head?,
}
use klaayguard.Text.{Text, codes, eq_text}
use klaayguard.Json.{Value, as_array, get, opt_num}
use klaayguard.Posture.{policy_units, timeq_forever, PasswordPolicy, password_policy_rows}

-- The whole units in a time: "never" has none, and any other time is rounded down.
abbrev pub Units : ℕ → ℕ → Option ℕ → Type 0
Units secs unit none = secs ≡ timeq_forever
Units secs unit (some u) = (secs ≢ timeq_forever) × (u * unit ≤ secs) × (secs < (u + 1) * unit)

-- Under this key, the one row holds this time in these units.
abbrev pub Holds : Value → Text → ℕ → ℕ → Type 0
Holds rows key secs unit =
    (u : Option ℕ) × (and_then (and_then (as_array rows) head?) (get key) ≡ some (opt_num u))
    × Units secs unit u

-- a time in whole days is rounded down
days-Units : (secs : ℕ) → Units secs 86400 (policy_units secs 86400)
unfolding policy_units
days-Units secs = elim (Bool-cases (secs == timeq_forever)) [
  | inl e ↦ rw e (ground arith)
  | inr e ↦ rw e ((λ q. ground arith), omega arith, omega arith)
]

minutes-Units : (secs : ℕ) → Units secs 60 (policy_units secs 60)
unfolding policy_units
minutes-Units secs = elim (Bool-cases (secs == timeq_forever)) [
  | inl e ↦ rw e (ground arith)
  | inr e ↦ rw e ((λ q. ground arith), omega arith, omega arith)
]

-- The four times of a readable policy as the row holds them: a `null` for the time that means never,
-- and else the whole days of the two ages and the whole minutes of the two lockout times, rounded
-- down.
pub password_policy_rows-Units :
    (p : PasswordPolicy) (scope : Text)
    → Holds
        (password_policy_rows (some p) scope)
        (codes "maximum_password_age_days")
        p.max_password_age_secs
        86400
      × Holds
          (password_policy_rows (some p) scope)
          (codes "minimum_password_age_days")
          p.min_password_age_secs
          86400
      × Holds
          (password_policy_rows (some p) scope)
          (codes "lockout_duration_minutes")
          p.lockout_duration_secs
          60
      × Holds
          (password_policy_rows (some p) scope)
          (codes "lockout_window_minutes")
          p.lockout_window_secs
          60
unfolding password_policy_rows get eq_text
password_policy_rows-Units p scope = (
  (_, refl, days-Units p.max_password_age_secs),
  (_, refl, days-Units p.min_password_age_secs),
  (_, refl, minutes-Units p.lockout_duration_secs),
  (_, refl, minutes-Units p.lockout_window_secs),
)
