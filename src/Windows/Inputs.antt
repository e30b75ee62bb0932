-- ===== src/Windows/Inputs.antt =====
-- src-tauri/src/lib.rs: what the Windows collector reads, and the parsers of registry values.
use klaayguard.Prelude.{
  ℕ, Bool, true, false, not, Option, none, some, if◌then◌else◌, is_empty, and_then, map_some,
  keep_if,
}
use klaayguard.Text.{Text, codes, trim, eq_text, parse_u64}

pub record ScreenSaverValues : Type 0 where
  pub active : Option Text
  pub secure : Option Text
  pub timeout_seconds : Option Text
  pub exe : Option Text

pub record PowerLockValues : Type 0 where
  pub console_lock_ac : Option Bool
  pub console_lock_dc : Option Bool
  pub standby_available : Option Bool
  pub hibernate_available : Option Bool
  pub modern_standby : Option Bool
  pub standby_ac_secs : Option ℕ
  pub standby_dc_secs : Option ℕ
  pub hibernate_ac_secs : Option ℕ
  pub hibernate_dc_secs : Option ℕ
  pub display_off_ac_secs : Option ℕ
  pub display_off_dc_secs : Option ℕ
  pub has_battery : Option Bool

pub record WindowsScreenLockInputs : Type 0 where
  pub inactivity_timeout_secs : Option Text
  pub user_policy : ScreenSaverValues
  pub user_preference : ScreenSaverValues
  pub power : PowerLockValues

abbrev reg_bool : Text → Option Bool
reg_bool s =
    if eq_text s (codes "1") then some true else if eq_text s (codes "0") then some false else none

unfoldable pub parse_reg_sz_bool : Option Text → Option Bool
parse_reg_sz_bool raw = and_then raw (λ s. reg_bool (trim s))

unfoldable pub parse_reg_sz_u64 : Option Text → Option ℕ
parse_reg_sz_u64 raw = and_then raw (λ s. parse_u64 (trim s))

unfoldable pub parse_reg_sz_path : Option Text → Option Text
parse_reg_sz_path raw = keep_if (λ s. not (is_empty s)) (map_some trim raw)
