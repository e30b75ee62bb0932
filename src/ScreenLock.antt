-- ===== src/ScreenLock.antt =====
-- src-tauri/src/lib.rs: the row that reports the screen lock, one shape for every platform. The text
-- of `detail` is left out: it repeats the values that were read, for a person.
use klaayguard.Prelude.{ℕ, ◌+◌, ◌*◌, ◌%◌, ◌^◌, Option, [], ◌∷◌}
use klaayguard.Text.{Text, codes}
use klaayguard.Json.{Value, object, array, str, opt_num}
pub mod Parse
pub mod Linux
pub mod Delay
pub mod Silent

-- "yes", "no" and "unknown" of the rows
pub data Tri : Type 0 where
  affirmed denied unknown : Tri

abbrev pub tri_text : Tri → Text
tri_text affirmed = codes "yes"
tri_text denied = codes "no"
tri_text unknown = codes "unknown"

pub record Row : Type 0 where
  pub desktop_environment : Text
  pub enabled : Tri
  pub delay_seconds : Option ℕ
  pub source : Text

abbrev pub screenlock_row : Text → Tri → Option ℕ → Text → Row
screenlock_row de enabled delay_seconds source = record {
  desktop_environment = de;
  enabled = enabled;
  delay_seconds = delay_seconds;
  source = source;
}

-- the row as it is sent
unfoldable pub row_json : Row → Value
row_json r = array (
    object (
      (codes "desktop_environment", str r.desktop_environment)
      ∷ (codes "enabled", str (tri_text r.enabled))
      ∷ (codes "delay_seconds", opt_num r.delay_seconds)
      ∷ (codes "source", str r.source)
      ∷ [])
    ∷ [])

-- `u64` arithmetic, as the release build does it
abbrev pub u64 : ℕ → ℕ
u64 n = n % 2 ^ 64
