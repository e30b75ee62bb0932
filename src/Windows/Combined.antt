-- ===== src/Windows/Combined.antt =====
-- src-tauri/src/lib.rs: how `windows_screenlock_row` combines the mechanisms.
use klaayguard.Prelude.{
  ◌≡◌, ◌≤◌, ◌↔◌, ◌⊎◌, inl, inr, true, false, [], ◌∷◌, none, some, arith, In, unwrap_or,
}
use klaayguard.Text.{u64_max}
use klaayguard.ScreenLock.{Tri, affirmed, denied}
use klaayguard.Windows.{
  LockVerdict, WindowsScreenLockInputs, lock_delay, combine, windows_screenlock_row,
  screensaver_lock_verdict, power_lock_verdict, inactivity_limit,
}

-- What the row of two mechanisms says of them.
abbrev pub Reports : LockVerdict → LockVerdict → Tri → Type 0
Reports saver power enabled =
    ((enabled ≡ affirmed) ↔ ((saver.locks ≡ some true) ⊎ (power.locks ≡ some true)))
    × ((enabled ≡ denied) ↔ ((saver.locks ≡ some false) × (power.locks ≡ some false)))

combine-Reports : (saver power : LockVerdict) → Reports saver power (combine saver power).enabled
unfolding combine
combine-Reports saver power = ((ground arith, ground arith), (ground arith, ground arith))

combine-soonest_saver :
    (saver power : LockVerdict)
    → saver.locks ≡ some true
    → unwrap_or (combine saver power).delay_seconds u64_max ≤ lock_delay saver
unfolding combine
combine-soonest_saver saver power h = ground arith

combine-soonest_power :
    (saver power : LockVerdict)
    → power.locks ≡ some true
    → unwrap_or (combine saver power).delay_seconds u64_max ≤ lock_delay power
unfolding combine
combine-soonest_power saver power h = ground arith

module _ (inputs : WindowsScreenLockInputs) where
  abbrev saver_path : LockVerdict
  saver_path = screensaver_lock_verdict inputs

  abbrev power_path : LockVerdict
  power_path = power_lock_verdict inputs.power

  no_limit :
      inactivity_limit inputs ≡ none → windows_screenlock_row inputs ≡ combine saver_path power_path
  unfolding windows_screenlock_row
  no_limit h = rw (h, windows_screenlock_row)

  -- With no machine inactivity limit above zero: the row answers "yes" exactly if the screen saver
  -- path or the power path locks, and "no" exactly if both are known not to lock.
  pub windows_screenlock_row-Reports :
      inactivity_limit inputs ≡ none
      → Reports
          (screensaver_lock_verdict inputs)
          (power_lock_verdict inputs.power)
          (windows_screenlock_row inputs).enabled
  windows_screenlock_row-Reports h = rw (no_limit h) (combine-Reports saver_path power_path)

  -- With no machine inactivity limit above zero: the delay of the row is no later than that of
  -- either path that locks.
  pub windows_screenlock_row-soonest :
      (path : LockVerdict)
      → inactivity_limit inputs ≡ none
      → In path (screensaver_lock_verdict inputs ∷ power_lock_verdict inputs.power ∷ [])
      → path.locks ≡ some true
      → unwrap_or (windows_screenlock_row inputs).delay_seconds u64_max ≤ lock_delay path
  windows_screenlock_row-soonest path h (inl e) l =
      rw (no_limit h) (rw e (combine-soonest_saver saver_path power_path (rw e at l)))
  windows_screenlock_row-soonest path h (inr (inl e)) l =
      rw (no_limit h) (rw e (combine-soonest_power saver_path power_path (rw e at l)))
  windows_screenlock_row-soonest path h (inr (inr e)) l = absurd e
