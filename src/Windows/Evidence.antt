-- ===== src/Windows/Evidence.antt =====
-- src-tauri/src/lib.rs: what a verdict of a Windows collector rests on.
use klaayguard.Prelude.{
  ℕ, ◌≡◌, ◌≢◌, ◌≤◌, ◌<◌, ◌^◌, ◌-◌, refl, subst, ◌∙◌, ap, ◌⊎◌, inl, inr, Bool, true, false, Option,
  none, some, arith, Bool-cases, Option-cases, ltb, keep_if,
}
use klaayguard.Text.{Text, codes}
use klaayguard.ScreenLock.{affirmed, denied, screenlock_row}
use klaayguard.Windows.{
  States, states, PowerLockValues, WindowsScreenLockInputs, power_lock_verdict, inactivity_limit,
  windows_screenlock_row, parse_reg_sz_u64,
}
use klaayguard.Windows.PowerVerdict.{has_no_state, verdict_read, power_lock_verdict-denies}
use klaayguard.Windows.Combined.{windows_screenlock_row-Reports}
use klaayguard.Windows.Guid.{GuidParts}
use klaayguard.Windows.Dword.{parse_u64-decimal}
use klaayguard.Windows.Reader.{
  Machine, Registered, dword, hkey_local_machine, Capabilities, reg_value_text, standby_state,
  active_scheme, values_of, read_power_lock_values, read_windows_screenlock_inputs,
  collect_screenlock_windows, has_battery,
}

limit_row :
    (inputs : WindowsScreenLockInputs) (secs : ℕ)
    → inactivity_limit inputs ≡ some secs
    → windows_screenlock_row inputs
      ≡ screenlock_row (codes "windows") affirmed (some secs) (codes "machine_inactivity_policy")
unfolding windows_screenlock_row
limit_row inputs secs h = rw (h, windows_screenlock_row)

positive_kept : (n : ℕ) → 0 < n → keep_if (λ secs. ltb 0 secs) (some n) ≡ some n
positive_kept n h = ground arith

no_limit :
    (inputs : WindowsScreenLockInputs)
    → (windows_screenlock_row inputs).enabled ≡ denied
    → inactivity_limit inputs ≡ none
no_limit inputs h = elim (Option-cases (inactivity_limit inputs)) [
  | inl e ↦ e
  | inr (secs, e) ↦ absurd (cc (rw (limit_row inputs secs e) at h))
]

-- Without a battery status, the power path judges only a host whose firmware offers no state.
battery_read :
    (p : PowerLockValues) (st : States)
    → states p ≡ some st
    → (power_lock_verdict p).locks ≡ some false
    → (has_no_state st ≡ true) ⊎ ((b : Bool) × (p.has_battery ≡ some b))
battery_read p st e h = elim (Bool-cases (has_no_state st)) [
  | inl n ↦ inl n
  | inr y ↦ elim (Option-cases p.has_battery) [
    | inl q ↦ absurd (cc (rw (y, q) at (rw (verdict_read p st e) at h)))
    | inr b ↦ inr b
  ]
]

module _ (m : Machine) where
  limit_read :
      (key : Text → Option Registered) (n : ℕ)
      → m.open_subkey hkey_local_machine
          (codes "SOFTWARE\\Microsoft\\Windows\\CurrentVersion\\Policies\\System")
        ≡ some key
      → key (codes "InactivityTimeoutSecs") ≡ some (dword n)
      → 0 < n
      → n ≤ 2 ^ 32 - 1
      → inactivity_limit (read_windows_screenlock_inputs m) ≡ some n
  unfolding inactivity_limit reg_value_text parse_reg_sz_u64
  limit_read key n o v pos small =
      let parsed = parse_u64-decimal n (omega arith) in
      let read = ap (λ o. keep_if (λ secs. ltb 0 secs) o) parsed ∙ positive_kept n pos in
      rw o (rw v read)

  -- A machine inactivity limit that a policy wrote as a 32-bit number above zero is the verdict, whatever
  -- else the machine holds: the row says "yes", with this number of seconds.
  pub collect_screenlock_windows-limit :
      (key : Text → Option Registered) (n : ℕ)
      → m.open_subkey hkey_local_machine
          (codes "SOFTWARE\\Microsoft\\Windows\\CurrentVersion\\Policies\\System")
        ≡ some key
      → key (codes "InactivityTimeoutSecs") ≡ some (dword n)
      → 0 < n
      → n ≤ 2 ^ 32 - 1
      → collect_screenlock_windows m
        ≡ screenlock_row (codes "windows") affirmed (some n) (codes "machine_inactivity_policy")
  unfolding collect_screenlock_windows
  collect_screenlock_windows-limit key n o v pos small =
      limit_row (read_windows_screenlock_inputs m) n (limit_read key n o v pos small)

  -- the states that the firmware offers
  abbrev pub offered : Capabilities → States
  offered c = record { standby_ok = standby_state m c; hibernate_ok = c.system_s4; s0ix = c.ao_ac }

  flag_seen :
      (b : Bool) → has_battery m ≡ some b → (flag : ℕ) × (m.battery_flag ≡ some flag) × (flag ≢ 255)
  unfolding has_battery
  flag_seen b h = elim (Option-cases m.battery_flag) [
    | inl e ↦ absurd (cc (rw e at h))
    | inr (flag, e) ↦ (flag, e, λ q. cc (rw (e, q) at h))
  ]

  -- what was seen of a machine, for the scheme that was read
  abbrev pub Seen : Option GuidParts → Type 0
  Seen o =
      (scheme : GuidParts) × (c : Capabilities) × (o ≡ some scheme)
      × (m.get_pwr_capabilities ≡ some c)
      × ((has_no_state (offered c) ≡ true)
          ⊎ ((flag : ℕ) × (m.battery_flag ≡ some flag) × (flag ≢ 255)))

  values-Seen :
      (o : Option GuidParts) (st : States)
      → states (values_of m o) ≡ some st
      → (has_no_state st ≡ true) ⊎ ((b : Bool) × ((values_of m o).has_battery ≡ some b))
      → Seen o
  values-Seen none st e why = absurd (cc e)
  values-Seen (some scheme) st e why = elim (Option-cases m.get_pwr_capabilities) [
    | inl n ↦ absurd (cc (rw n at e))
    | inr (c, q) ↦ (
      scheme,
      c,
      refl,
      q,
      elim why [
        | inl n ↦ inl (
            subst (λ (x : States). has_no_state x ≡ true) {x = st} {y = offered c} (cc (rw q at e))
              n)
        | inr (b, r) ↦ inr (flag_seen b r)
      ],
    )
  ]

  -- A "no" on the lock rests on what the power path has seen: the row says "no" only if the active
  -- power scheme and the states of the firmware were read, and either the firmware offers no state in
  -- which the host could lock, or the battery status was read too, and is not the 255 that stands for
  -- an unknown one. It may say so though the inactivity limit and the screen saver could not be read.
  pub collect_screenlock_windows-Seen :
      (collect_screenlock_windows m).enabled ≡ denied → Seen (active_scheme m)
  unfolding collect_screenlock_windows
  collect_screenlock_windows-Seen h =
      let inputs = read_windows_screenlock_inputs m in
      let report = windows_screenlock_row-Reports inputs (no_limit inputs h) in
      let quiet = (report.1.0 h).1 in
      let (st, e, why) = power_lock_verdict-denies inputs.power quiet in
      unfold read_power_lock_values in
      values-Seen (active_scheme m) st e (battery_read inputs.power st e quiet)
