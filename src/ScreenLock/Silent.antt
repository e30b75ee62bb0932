-- ===== src/ScreenLock/Silent.antt =====
-- src-tauri/src/lib.rs: the Linux screen lock row of a host that answers nothing.
use klaayguard.Prelude.{ℕ, ◌≡◌, refl, Bool, true, false, Option, none}
use klaayguard.Text.{Text, codes, lines, split_by}
use klaayguard.ScreenLock.{Tri, affirmed, denied, unknown}
use klaayguard.ScreenLock.Parse.{
  Desktop, gnome, kde, hyprland, cinnamon, mate, xfce, other, detect_desktop, parse_kscreenlockerrc,
  parse_hypridle_config,
}
use klaayguard.ScreenLock.Linux.{
  screenlock_row_gsettings, screenlock_row_mate, screenlock_row_kde, screenlock_row_hyprland,
  screenlock_row_xfce_screensaver, screenlock_row_light_locker, Host, collect_screenlock_xfce,
  desktop_row, collect_screenlock,
}

-- a host on which no command succeeds and no file can be read
pub record IsSilent (h : Host) : Type 0 where
  pub no_gsettings : (schema key : Text) → h.gsettings_get schema key ≡ none
  pub no_xfconf : (channel property : Text) → h.xfconf_get channel property ≡ none
  pub no_xset : h.xset ≡ none
  pub no_autostart : (name : Text) → h.read_autostart_entry name ≡ none
  pub no_system_kde : h.system_kscreenlockerrc ≡ none
  pub no_user_kde : h.user_kscreenlockerrc ≡ none
  pub no_hypridle : h.hypridle_conf ≡ none

-- What such a host's row says.
abbrev pub silent_verdict : Bool → Bool → Desktop → Tri
silent_verdict screensaver light_locker kde = affirmed
silent_verdict true light_locker xfce = affirmed
silent_verdict false true xfce = denied
silent_verdict screensaver light_locker _ = unknown

module _ (h : Host) (silent : IsSilent h) (round_minutes : Text → Option ℕ) where
  open silent use {
    no_gsettings, no_xfconf, no_xset, no_autostart, no_system_kde, no_user_kde, no_hypridle,
  }

  xfce_silent :
      (a b : Bool)
      → h.binary_on_path (codes "xfce4-screensaver") ≡ a
      → h.binary_on_path (codes "light-locker") ≡ b
      → (collect_screenlock_xfce h).enabled ≡ silent_verdict a b xfce
  unfolding collect_screenlock_xfce screenlock_row_xfce_screensaver screenlock_row_light_locker
  xfce_silent true b p q = simp (p, no_xfconf)
  xfce_silent false true p q = simp (p, q, no_autostart)
  xfce_silent false false p q = simp (p, q)

  desktop_row-silent :
      (d : Desktop)
      → (desktop_row h round_minutes d).enabled
        ≡ silent_verdict
            (h.binary_on_path (codes "xfce4-screensaver"))
            (h.binary_on_path (codes "light-locker"))
            d
  unfolding screenlock_row_gsettings screenlock_row_mate screenlock_row_kde screenlock_row_hyprland
      parse_kscreenlockerrc parse_hypridle_config lines split_by
  desktop_row-silent gnome = simp no_gsettings
  desktop_row-silent cinnamon = simp no_gsettings
  desktop_row-silent mate = simp no_gsettings
  desktop_row-silent kde = rw (no_system_kde, no_user_kde) refl
  desktop_row-silent hyprland = rw no_hypridle refl
  desktop_row-silent xfce = xfce_silent _ _ refl refl
  desktop_row-silent other = refl

-- A host that answers nothing is reported "no" in one case, XFCE with light-locker installed and no
-- xfce4-screensaver; elsewhere it gets "unknown", or the "yes" of the shipped defaults.
pub collect_screenlock-silent :
    (h : Host) (round_minutes : Text → Option ℕ)
    → IsSilent h
    → (collect_screenlock h round_minutes).enabled
      ≡ silent_verdict
          (h.binary_on_path (codes "xfce4-screensaver"))
          (h.binary_on_path (codes "light-locker"))
          (detect_desktop h.xdg_current_desktop)
unfolding collect_screenlock
collect_screenlock-silent h round_minutes silent =
    desktop_row-silent h silent round_minutes (detect_desktop h.xdg_current_desktop)
