-- ===== src/Windows/Reader.antt =====
-- src-tauri/src/lib.rs: the collectors of Windows over what the system gives them: the registry, the power
-- API, PowerShell, and the calls of NetManagement. These are the fields of `Machine`; a call that fails
-- gives none. `decimal` is `to_string` of a number.
use klaayguard.Prelude.{
  ℕ, ◌/◌, ◌%◌, Bool, true, false, not, ◌||◌, Option, none, some, List, ◌++◌, and_then, map_some,
  if◌then◌else◌, ◌==◌, is_empty, unwrap_or,
}
use klaayguard.Text.{Text, codes, trim, eq_text, is_text, Result, ok, err}
use klaayguard.Text.Utf8.{from_utf8_lossy}
use klaayguard.Json.{Value}
use klaayguard.Tray.{decimal}
use klaayguard.ScreenLock.{Row}
use klaayguard.Windows.{
  ScreenSaverValues, PowerLockValues, WindowsScreenLockInputs, windows_screenlock_row,
}
use klaayguard.Windows.Guid.{GuidParts, parse_guid}
use klaayguard.Posture.{
  parse_bitlocker_protection, windows_disk_encryption_rows, PasswordPolicy, password_policy_rows,
}

pub data Hive : Type 0 where
  hkey_local_machine hkey_current_user : Hive

-- A value of a key, as `get_value` of winreg can read it: a text, or a 32-bit number.
pub data Registered : Type 0 where
  string : Text → Registered
  dword : ℕ → Registered

pub record Capabilities : Type 0 where
  pub system_s1 : Bool
  pub system_s2 : Bool
  pub system_s3 : Bool
  pub system_s4 : Bool
  pub ao_ac : Bool

-- What PowerShell ends in.
pub record Output : Type 0 where
  pub code : Option ℕ
  pub stdout : List ℕ

pub data JoinStatus : Type 0 where
  domain_name workgroup_name unjoined other : JoinStatus

-- `USER_MODALS_INFO_0` and `USER_MODALS_INFO_3`
pub record Modals0 : Type 0 where
  pub min_passwd_len : ℕ
  pub max_passwd_age : ℕ
  pub min_passwd_age : ℕ
  pub password_hist_len : ℕ

pub record Modals3 : Type 0 where
  pub lockout_duration : ℕ
  pub lockout_observation_window : ℕ
  pub lockout_threshold : ℕ

pub record Machine : Type 0 where
  pub open_subkey : Hive → Text → Option (Text → Option Registered)
  pub power_read_ac : GuidParts → GuidParts → GuidParts → Option ℕ  -- scheme, subgroup, setting
  pub power_read_dc : GuidParts → GuidParts → GuidParts → Option ℕ
  pub get_pwr_capabilities : Option Capabilities
  pub battery_flag : Option ℕ  -- of `GetSystemPowerStatus`, a byte
  pub powershell : Text → Result Output
  pub system_drive : Option Text
  pub net_get_join_information : Option JoinStatus
  pub net_user_modals_get_0 : Option Modals0
  pub net_user_modals_get_3 : Option Modals3

abbrev pub as_text : Registered → Text
as_text (string s) = s
as_text (dword n) = decimal n

abbrev sub_none : Text
sub_none = codes "fea3413e-7e05-4911-9a71-700331f1c294"

abbrev setting_console_lock : Text
setting_console_lock = codes "0e796bdb-100d-47d6-a2d5-f7d2daa51f51"

abbrev sub_sleep : Text
sub_sleep = codes "238c9fa8-0aad-41ed-83f4-97be242c8f20"

abbrev setting_standby_idle : Text
setting_standby_idle = codes "29f6c1db-86da-48c5-9fdb-f2b67b1f44da"

abbrev setting_hibernate_idle : Text
setting_hibernate_idle = codes "9d7815a6-7ee4-497e-8888-515a05f02364"

abbrev sub_video : Text
sub_video = codes "7516b95f-f776-4464-8c53-06167f40cc99"

abbrev setting_video_idle : Text
setting_video_idle = codes "3c0bc021-c8a8-4e07-a973-6b14cbcb2b7e"

abbrev no_power : PowerLockValues
no_power = record {
  console_lock_ac = none;
  console_lock_dc = none;
  standby_available = none;
  hibernate_available = none;
  modern_standby = none;
  standby_ac_secs = none;
  standby_dc_secs = none;
  hibernate_ac_secs = none;
  hibernate_dc_secs = none;
  display_off_ac_secs = none;
  display_off_dc_secs = none;
  has_battery = none;
}

module _ (m : Machine) where
  unfoldable pub reg_value_text : Hive → Text → Text → Option Text
  reg_value_text root path name =
      and_then (m.open_subkey root path) (λ key. map_some as_text (key name))

  abbrev pub read_screensaver_values : Hive → Text → ScreenSaverValues
  read_screensaver_values root path = record {
    active = reg_value_text root path (codes "ScreenSaveActive");
    secure = reg_value_text root path (codes "ScreenSaverIsSecure");
    timeout_seconds = reg_value_text root path (codes "ScreenSaveTimeOut");
    exe = reg_value_text root path (codes "SCRNSAVE.EXE");
  }

  -- `flag & 128 == 0` of a byte
  abbrev no_battery_bit : ℕ → Option Bool
  no_battery_bit flag = if flag == 255 then none else some (flag / 128 % 2 == 0)

  unfoldable pub has_battery : Option Bool
  has_battery = and_then m.battery_flag no_battery_bit

  abbrev pub standby_state : Capabilities → Bool
  standby_state c = c.system_s1 || (c.system_s2 || c.system_s3)

  unfoldable pub power_value : GuidParts → Text → Text → Bool → Option ℕ
  unfolding parse_guid
  power_value scheme subgroup setting ac = and_then (parse_guid subgroup) (λ sub.
      and_then (parse_guid setting)
        (λ set. if ac then m.power_read_ac scheme sub set else m.power_read_dc scheme sub set))

  abbrev pub console_lock : GuidParts → Bool → Option Bool
  console_lock scheme ac =
      map_some (λ v. not (v == 0)) (power_value scheme sub_none setting_console_lock ac)

  -- the values of an active scheme; `power_states` gives its three at once
  abbrev pub scheme_values : GuidParts → PowerLockValues
  scheme_values scheme = record {
    console_lock_ac = console_lock scheme true;
    console_lock_dc = console_lock scheme false;
    standby_available = map_some standby_state m.get_pwr_capabilities;
    hibernate_available = map_some (λ c. c.system_s4) m.get_pwr_capabilities;
    modern_standby = map_some (λ c. c.ao_ac) m.get_pwr_capabilities;
    standby_ac_secs = power_value scheme sub_sleep setting_standby_idle true;
    standby_dc_secs = power_value scheme sub_sleep setting_standby_idle false;
    hibernate_ac_secs = power_value scheme sub_sleep setting_hibernate_idle true;
    hibernate_dc_secs = power_value scheme sub_sleep setting_hibernate_idle false;
    display_off_ac_secs = power_value scheme sub_video setting_video_idle true;
    display_off_dc_secs = power_value scheme sub_video setting_video_idle false;
    has_battery = has_battery;
  }

  abbrev pub active_scheme : Option GuidParts
  active_scheme =
      and_then
        (reg_value_text hkey_local_machine
          (codes "SYSTEM\\CurrentControlSet\\Control\\Power\\User\\PowerSchemes")
          (codes "ActivePowerScheme"))
        parse_guid

  abbrev pub values_of : Option GuidParts → PowerLockValues
  values_of none = no_power
  values_of (some scheme) = scheme_values scheme

  unfoldable pub read_power_lock_values : PowerLockValues
  unfolding power_value has_battery
  read_power_lock_values = values_of active_scheme

  abbrev pub read_windows_screenlock_inputs : WindowsScreenLockInputs
  read_windows_screenlock_inputs = record {
    inactivity_timeout_secs =
        reg_value_text hkey_local_machine
          (codes "SOFTWARE\\Microsoft\\Windows\\CurrentVersion\\Policies\\System")
          (codes "InactivityTimeoutSecs");
    user_policy =
        read_screensaver_values hkey_current_user
          (codes "Software\\Policies\\Microsoft\\Windows\\Control Panel\\Desktop");
    user_preference = read_screensaver_values hkey_current_user (codes "Control Panel\\Desktop");
    power = read_power_lock_values;
  }

  unfoldable pub collect_screenlock_windows : Row
  unfolding windows_screenlock_row reg_value_text read_power_lock_values
  collect_screenlock_windows = windows_screenlock_row read_windows_screenlock_inputs

  abbrev pub bitlocker_script : Text → Text
  bitlocker_script drive =
      codes "if ($ExecutionContext.SessionState.LanguageMode -ne 'FullLanguage') { exit 3 }; "
      ++ (codes "(New-Object -ComObject Shell.Application).NameSpace('"
          ++ (drive ++ codes "').Self.ExtendedProperty('System.Volume.BitLockerProtection')"))

  abbrev pub property : Text → Result Text
  property text = if is_empty text then err (codes "empty property") else ok text

  -- the exit code 3 is that of the script's first line, and `success` is the code 0
  abbrev pub of_output : Result Output → Result Text
  of_output (err e) = err (codes "powershell spawn failed: " ++ e)
  of_output (ok out) =
      if unwrap_or (map_some (λ c. c == 3) out.code) false
      then err (codes "blocked by application control (PowerShell ConstrainedLanguage)")
      else if not (unwrap_or (map_some (λ c. c == 0) out.code) false)
      then err (codes "powershell exit")
      else property (trim (from_utf8_lossy out.stdout))

  unfoldable pub read_bitlocker_protection : Text → Result Text
  unfolding klaayguard.Text.trim_start_by klaayguard.Text.trim_end_by
  read_bitlocker_protection drive = of_output (m.powershell (bitlocker_script drive))

  abbrev pub bitlocker_rows : Text → Result Text → Value
  bitlocker_rows drive (ok raw) =
      windows_disk_encryption_rows drive (parse_bitlocker_protection (some raw))
  bitlocker_rows drive (err reason) = windows_disk_encryption_rows drive none

  unfoldable pub collect_disk_encryption_windows : Value
  unfolding read_bitlocker_protection windows_disk_encryption_rows parse_bitlocker_protection
  collect_disk_encryption_windows =
      let drive = unwrap_or m.system_drive (codes "C:") in
      bitlocker_rows drive (read_bitlocker_protection drive)

  abbrev scope_of : JoinStatus → Text
  scope_of domain_name = codes "domain"
  scope_of workgroup_name = codes "local"
  scope_of unjoined = codes "local"
  scope_of other = codes "unknown"

  unfoldable pub read_join_scope : Text
  read_join_scope = unwrap_or (map_some scope_of m.net_get_join_information) (codes "unknown")

  abbrev policy_of : Modals0 → Modals3 → PasswordPolicy
  policy_of m0 m3 = record {
    min_password_len = m0.min_passwd_len;
    max_password_age_secs = m0.max_passwd_age;
    min_password_age_secs = m0.min_passwd_age;
    password_history_len = m0.password_hist_len;
    lockout_threshold = m3.lockout_threshold;
    lockout_duration_secs = m3.lockout_duration;
    lockout_window_secs = m3.lockout_observation_window;
  }

  unfoldable pub read_password_policy : Option PasswordPolicy
  read_password_policy =
      and_then m.net_user_modals_get_0
        (λ m0. map_some (λ m3. policy_of m0 m3) m.net_user_modals_get_3)

  unfoldable pub collect_password_policy_windows : Value
  unfolding read_password_policy read_join_scope password_policy_rows
  collect_password_policy_windows = password_policy_rows read_password_policy read_join_scope
