-- ===== src/Tests/Machine.antt =====
-- Runs of the collectors of Windows over what a machine answers.
use klaayguard.Prelude.{refl, true, false, [], ◌∷◌, Option, none, some, if◌then◌else◌, unwrap_or}
use klaayguard.Text.{Text, codes, eq_text, err, ok, Result}
use klaayguard.Windows.Reader.{
  Machine, Registered, string, dword, Hive, hkey_local_machine, Capabilities, active_scheme,
  collect_screenlock_windows, collect_disk_encryption_windows,
}
use klaayguard.Windows.Evidence.{Seen, collect_screenlock_windows-Seen}
use klaayguard.Windows.Printed.{Verdict, collect_disk_encryption_windows-Verdict}

-- a desktop that a policy locks after ten minutes
abbrev policies : Text → Option Registered
policies name = if eq_text name (codes "InactivityTimeoutSecs") then some (dword 600) else none

abbrev policy_key : Hive → Text → Option (Text → Option Registered)
policy_key root path =
    if eq_text path (codes "SOFTWARE\\Microsoft\\Windows\\CurrentVersion\\Policies\\System")
    then some policies
    else none

abbrev managed : Machine
managed = record {
  open_subkey = policy_key;
  power_read_ac = λ scheme sub set. none;
  power_read_dc = λ scheme sub set. none;
  get_pwr_capabilities = none;
  battery_flag = some 128;
  powershell = λ script. ok (record { code = some 0; stdout = b'1' ∷ [] });
  system_drive = none;
  net_get_join_information = none;
  net_user_modals_get_0 = none;
  net_user_modals_get_3 = none;
}

-- a desktop that never locks
abbrev schemes : Text → Option Registered
schemes name = some (string (codes "381b4222-f694-41f0-9685-ff5bb260df2e"))

abbrev open_desk : Machine
open_desk = record managed {
  open_subkey = λ root path.
      if eq_text path (codes "SYSTEM\\CurrentControlSet\\Control\\Power\\User\\PowerSchemes")
      then some schemes
      else none;
  power_read_ac = λ scheme sub set. some 0;
  power_read_dc = λ scheme sub set. some 0;
  get_pwr_capabilities = some (record {
    system_s1 = false;
    system_s2 = false;
    system_s3 = true;
    system_s4 = true;
    ao_ac = false;
  });
}

collect_screenlock_windows-Seen_example : Seen open_desk (active_scheme open_desk)
unfolding collect_screenlock_windows klaayguard.Windows.inactivity_limit
    klaayguard.Windows.parse_reg_sz_u64 klaayguard.Windows.screensaver_lock_verdict
    klaayguard.Windows.power_lock_verdict klaayguard.Windows.combine
    klaayguard.Windows.Guid.parse_guid klaayguard.Windows.Reader.power_value
    klaayguard.Windows.Reader.has_battery klaayguard.Text.is_whitespace eq_text
collect_screenlock_windows-Seen_example = collect_screenlock_windows-Seen open_desk refl

collect_disk_encryption_windows-Verdict_example :
    Verdict managed
      (collect_disk_encryption_windows managed)
      (unwrap_or managed.system_drive (codes "C:"))
collect_disk_encryption_windows-Verdict_example = collect_disk_encryption_windows-Verdict managed
