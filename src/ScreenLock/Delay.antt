-- ===== src/ScreenLock/Delay.antt =====
-- src-tauri/src/lib.rs: the delay of the Linux screen lock rows.
use klaayguard.Prelude.{
  ℕ, ◌+◌, ◌*◌, ◌<◌, ◌≡◌, refl, Bool, true, false, Option, none, some, arith, suc, zero, unwrap_or,
  ◌==◌, ◌⊎◌, inl, inr, ap, Bool-cases,
}
use klaayguard.Text.{Text, codes}
use klaayguard.ScreenLock.{affirmed, Row, u64}
use klaayguard.ScreenLock.Parse.{
  Desktop, gnome, kde, hyprland, cinnamon, mate, xfce, other, detect_desktop,
}
use klaayguard.ScreenLock.Linux.{
  screenlock_row_gsettings, screenlock_row_mate, screenlock_row_kde, screenlock_row_hyprland,
  screenlock_row_xfce_screensaver, screenlock_row_light_locker, Host, collect_screenlock_xfce,
  desktop_row, collect_screenlock, kde_row, off,
}

-- "yes" comes with a delay: a positive number of seconds, or the wrap-around of one
abbrev pub Timed : Row → Type 0
Timed r = (n : ℕ) × (0 < n) × ((r.delay_seconds ≡ some n) ⊎ (r.delay_seconds ≡ some (u64 n)))

screenlock_row_gsettings-Timed :
    (de : Text) (lock : Option Bool) (idle extra : Option ℕ)
    → (screenlock_row_gsettings de lock idle extra).enabled ≡ affirmed
    → Timed (screenlock_row_gsettings de lock idle extra)
unfolding screenlock_row_gsettings
screenlock_row_gsettings-Timed de (some true) (some (suc d)) extra h =
    (suc d + unwrap_or extra 0, omega arith, inr refl)
screenlock_row_gsettings-Timed de (some true) (some zero) extra h = absurd (cc h)
screenlock_row_gsettings-Timed de (some true) none extra h = absurd (cc h)
screenlock_row_gsettings-Timed de (some false) idle extra h = absurd (cc h)
screenlock_row_gsettings-Timed de none idle extra h = absurd (cc h)

-- the two `u64` steps of minutes to seconds are one
u64_minutes : (m : ℕ) → u64 (u64 m * 60) ≡ u64 (m * 60)
u64_minutes m = omega arith

screenlock_row_mate-Timed :
    (activation lock : Option Bool) (idle extra : Option ℕ)
    → (screenlock_row_mate activation lock idle extra).enabled ≡ affirmed
    → Timed (screenlock_row_mate activation lock idle extra)
unfolding screenlock_row_mate
screenlock_row_mate-Timed (some true) (some true) (some (suc d)) extra h =
    let m = suc d + unwrap_or extra 0 in (m * 60, omega arith, inr (ap some (u64_minutes m)))
screenlock_row_mate-Timed (some true) (some true) (some zero) extra h = absurd (cc h)
screenlock_row_mate-Timed (some true) (some true) none extra h = absurd (cc h)
screenlock_row_mate-Timed (some true) (some false) idle extra h = absurd (cc h)
screenlock_row_mate-Timed (some true) none idle extra h = absurd (cc h)
screenlock_row_mate-Timed (some false) lock idle extra h = absurd (cc h)
screenlock_row_mate-Timed none (some true) idle extra h = absurd (cc h)
screenlock_row_mate-Timed none (some false) idle extra h = absurd (cc h)
screenlock_row_mate-Timed none none idle extra h = absurd (cc h)

kde_row-Timed :
    (autolock : Bool) (t : ℕ) → (kde_row autolock t).enabled ≡ affirmed → Timed (kde_row autolock t)
kde_row-Timed true (suc t) h = (suc t, omega arith, inl refl)
kde_row-Timed true zero h = absurd (cc h)
kde_row-Timed false t h = absurd (cc h)

screenlock_row_hyprland-Timed :
    (t : Option ℕ)
    → (screenlock_row_hyprland t).enabled ≡ affirmed
    → Timed (screenlock_row_hyprland t)
unfolding screenlock_row_hyprland
screenlock_row_hyprland-Timed none h = absurd (cc h)
screenlock_row_hyprland-Timed (some zero) h = absurd (cc h)
screenlock_row_hyprland-Timed (some (suc t)) h = (suc t, omega arith, inl refl)

screenlock_row_xfce_screensaver-Timed :
    (saver activation : Option Bool) (idle : Option ℕ) (lock lock_saver : Option Bool)
    (grace : Option ℕ)
    → (screenlock_row_xfce_screensaver saver activation idle lock lock_saver grace).enabled
      ≡ affirmed
    → Timed (screenlock_row_xfce_screensaver saver activation idle lock lock_saver grace)
unfolding screenlock_row_xfce_screensaver
screenlock_row_xfce_screensaver-Timed saver activation idle lock lock_saver grace h =
    let m = unwrap_or idle 5 + unwrap_or grace 0 in
    elim (Bool-cases (off saver activation lock lock_saver)) [
      | inl e ↦ absurd (cc (rw e at h))
      | inr e ↦ elim (Bool-cases (unwrap_or idle 5 == 0)) [
        | inl z ↦ absurd (cc (rw (e, z) at h))
        | inr z ↦ rw (e, z) (m * 60, ground arith, inr (ap some (u64_minutes m)))
      ]
    ]

screenlock_row_light_locker-Timed :
    (after blank : Option ℕ)
    → (screenlock_row_light_locker after blank).enabled ≡ affirmed
    → Timed (screenlock_row_light_locker after blank)
unfolding screenlock_row_light_locker
screenlock_row_light_locker-Timed none blank h = absurd (cc h)
screenlock_row_light_locker-Timed (some after) none h = absurd (cc h)
screenlock_row_light_locker-Timed (some after) (some zero) h = absurd (cc h)
screenlock_row_light_locker-Timed (some after) (some (suc blank)) h =
    (suc blank + after, omega arith, inr refl)

collect_screenlock_xfce-Timed :
    (h : Host) → (collect_screenlock_xfce h).enabled ≡ affirmed → Timed (collect_screenlock_xfce h)
unfolding collect_screenlock_xfce
collect_screenlock_xfce-Timed h e =
    elim (Bool-cases (h.binary_on_path (codes "xfce4-screensaver"))) [
      | inl s ↦ rw s (screenlock_row_xfce_screensaver-Timed _ _ _ _ _ _ (rw s at e))
      | inr s ↦ elim (Bool-cases (h.binary_on_path (codes "light-locker"))) [
        | inl l ↦ rw (s, l) (screenlock_row_light_locker-Timed _ _ (rw (s, l) at e))
        | inr l ↦ absurd (cc (rw (s, l) at e))
      ]
    ]

desktop_row-Timed :
    (h : Host) (round_minutes : Text → Option ℕ) (d : Desktop)
    → (desktop_row h round_minutes d).enabled ≡ affirmed
    → Timed (desktop_row h round_minutes d)
unfolding screenlock_row_kde
desktop_row-Timed h round_minutes gnome e = screenlock_row_gsettings-Timed _ _ _ _ e
desktop_row-Timed h round_minutes cinnamon e = screenlock_row_gsettings-Timed _ _ _ _ e
desktop_row-Timed h round_minutes mate e = screenlock_row_mate-Timed _ _ _ _ e
desktop_row-Timed h round_minutes kde e = kde_row-Timed _ _ e
desktop_row-Timed h round_minutes hyprland e = screenlock_row_hyprland-Timed _ e
desktop_row-Timed h round_minutes xfce e = collect_screenlock_xfce-Timed h e
desktop_row-Timed h round_minutes other e = absurd (cc e)

-- A Linux row that says "yes" carries a delay: a positive number of seconds, or its wrap-around in
-- 64 bits.
pub collect_screenlock-Timed :
    (h : Host) (round_minutes : Text → Option ℕ)
    → (collect_screenlock h round_minutes).enabled ≡ affirmed
    → Timed (collect_screenlock h round_minutes)
unfolding collect_screenlock
collect_screenlock-Timed h round_minutes e =
    desktop_row-Timed h round_minutes (detect_desktop h.xdg_current_desktop) e
