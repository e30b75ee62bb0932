-- ===== src/Tests/Lock.antt =====
-- Runs of the power path of the Windows screen lock.
use klaayguard.Prelude.{ℕ, ◌≡◌, refl, ◌⊎◌, true, false, none, some, In, All, any}
use klaayguard.Text.{codes}
use klaayguard.Windows.{
  PowerLockValues, PowerSource, States, states, ScreenSaverValues, WindowsScreenLockInputs,
  power_lock_verdict, is_unread,
}
use klaayguard.Windows.Power.{LocksWithin, NeverLocks, applies}
use klaayguard.Windows.PowerVerdict.{
  has_no_state, power_lock_verdict-locks, power_lock_verdict-denies,
}

-- a laptop that sleeps and asks for the password
abbrev sleeping : PowerLockValues
sleeping = record {
  console_lock_ac = some true;
  console_lock_dc = some true;
  standby_available = some true;
  hibernate_available = some false;
  modern_standby = some false;
  standby_ac_secs = some 1800;
  standby_dc_secs = some 600;
  hibernate_ac_secs = none;
  hibernate_dc_secs = none;
  display_off_ac_secs = none;
  display_off_dc_secs = none;
  has_battery = some true;
}

-- it asks for none on battery
abbrev open_on_battery : PowerLockValues
open_on_battery = record sleeping { console_lock_dc = some false }

abbrev no_saver : ScreenSaverValues
no_saver = record { active = none; secure = none; timeout_seconds = none; exe = none }

abbrev saver : ScreenSaverValues
saver = record {
  active = some (codes "1");
  secure = some (codes "1");
  timeout_seconds = some (codes "900");
  exe = some (codes "scrnsave.scr");
}

abbrev inputs : WindowsScreenLockInputs
inputs = record {
  inactivity_timeout_secs = some (codes "0");
  user_policy = no_saver;
  user_preference = saver;
  power = sleeping;
}

power_lock_verdict-locks_example :
    (st : States) × (states sleeping ≡ some st)
    × ((d : ℕ) × ((power_lock_verdict sleeping).delay_seconds ≡ some d)
        × All (LocksWithin st d) (applies sleeping))
unfolding power_lock_verdict
power_lock_verdict-locks_example = power_lock_verdict-locks sleeping refl

power_lock_verdict-denies_example :
    (st : States) × (states open_on_battery ≡ some st)
    × ((has_no_state st ≡ true)
        ⊎ ((any (is_unread st) (applies open_on_battery) ≡ false)
            × ((s : PowerSource) × In s (applies open_on_battery) × NeverLocks st s)))
unfolding power_lock_verdict
power_lock_verdict-denies_example = power_lock_verdict-denies open_on_battery refl
