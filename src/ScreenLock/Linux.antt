-- ===== src/ScreenLock/Linux.antt =====
-- src-tauri/src/lib.rs: the screen lock rows of the Linux desktops, and `collect_screenlock`, which
-- picks one. What the commands and the files of the host give is the record `Host`.
use klaayguard.Prelude.{
  ℕ, ◌+◌, ◌*◌, Bool, true, false, not, ◌||◌, Option, none, some, ◌==◌, if◌then◌else◌, and_then,
  unwrap_or, map_some, [], suc, zero,
}
use klaayguard.Text.{Text, codes}
use klaayguard.ScreenLock.{Tri, affirmed, denied, unknown, Row, screenlock_row, u64}
use klaayguard.ScreenLock.Parse.{
  Desktop, gnome, kde, hyprland, cinnamon, mate, xfce, other, detect_desktop, parse_gsettings_bool,
  parse_gsettings_uint, parse_kscreenlockerrc, parse_hypridle_config, parse_xset_timeout,
  parse_light_locker_autostart,
}

abbrev gsettings : Text
gsettings = codes "gsettings"

unfoldable pub screenlock_row_gsettings : Text → Option Bool → Option ℕ → Option ℕ → Row
screenlock_row_gsettings de (some true) (some (suc d)) lock =
    screenlock_row de affirmed (some (u64 (suc d + unwrap_or lock 0))) gsettings
screenlock_row_gsettings de (some true) (some zero) lock =
    screenlock_row de denied (some 0) gsettings
screenlock_row_gsettings de (some true) none lock = screenlock_row de unknown none gsettings
screenlock_row_gsettings de (some false) idle lock = screenlock_row de denied idle gsettings
screenlock_row_gsettings de none idle lock = screenlock_row de unknown idle gsettings

abbrev mate_row : Tri → Option ℕ → Row
mate_row enabled delay = screenlock_row (codes "mate") enabled delay gsettings

abbrev minutes : Option ℕ → Option ℕ
minutes = map_some (λ m. u64 (m * 60))

-- the arms after the two that take all three values
abbrev mate_off : Option Bool → Option Bool → Option ℕ → Row
mate_off (some false) lock idle = mate_row denied (minutes idle)
mate_off activation (some false) idle = mate_row denied (minutes idle)
mate_off activation lock idle = mate_row unknown (minutes idle)

unfoldable pub screenlock_row_mate : Option Bool → Option Bool → Option ℕ → Option ℕ → Row
screenlock_row_mate (some true) (some true) (some (suc d)) lock_delay =
    mate_row affirmed (some (u64 (u64 (suc d + unwrap_or lock_delay 0) * 60)))
screenlock_row_mate (some true) (some true) (some zero) lock_delay = mate_row denied (some 0)
screenlock_row_mate activation lock idle lock_delay = mate_off activation lock idle

abbrev pub kde_default_timeout_secs : ℕ
kde_default_timeout_secs = 300

abbrev pub kde_row : Bool → ℕ → Row
kde_row true zero = screenlock_row (codes "kde") denied (some 0) (codes "kscreenlockerrc")
kde_row true (suc t) =
    screenlock_row (codes "kde") affirmed (some (suc t)) (codes "kscreenlockerrc")
kde_row false t = screenlock_row (codes "kde") denied (some t) (codes "kscreenlockerrc")

unfoldable pub screenlock_row_kde : Option Bool → Option ℕ → Row
screenlock_row_kde autolock timeout_secs =
    kde_row (unwrap_or autolock true) (unwrap_or timeout_secs kde_default_timeout_secs)

unfoldable pub screenlock_row_hyprland : Option ℕ → Row
screenlock_row_hyprland none = screenlock_row (codes "hyprland") unknown none (codes "hypridle")
screenlock_row_hyprland (some zero) =
    screenlock_row (codes "hyprland") denied (some 0) (codes "hypridle")
screenlock_row_hyprland (some (suc t)) =
    screenlock_row (codes "hyprland") affirmed (some (suc t)) (codes "hypridle")

abbrev xfce_row : Tri → ℕ → Row
xfce_row enabled delay =
    screenlock_row (codes "xfce") enabled (some delay) (codes "xfce4-screensaver")

abbrev pub off : Option Bool → Option Bool → Option Bool → Option Bool → Bool
off saver activation lock lock_saver =
    not (unwrap_or saver true)
    || (not (unwrap_or activation true)
        || (not (unwrap_or lock true) || not (unwrap_or lock_saver true)))

unfoldable pub screenlock_row_xfce_screensaver :
    Option Bool → Option Bool → Option ℕ → Option Bool → Option Bool → Option ℕ → Row
screenlock_row_xfce_screensaver saver activation idle_min lock lock_saver grace_min =
    let idle = unwrap_or idle_min 5 in
    let total = u64 (u64 (idle + unwrap_or grace_min 0) * 60) in
    if off saver activation lock lock_saver
    then xfce_row denied total
    else if idle == 0
    then xfce_row denied 0
    else xfce_row affirmed total

abbrev light_locker_row : Tri → Option ℕ → Row
light_locker_row enabled delay = screenlock_row (codes "xfce") enabled delay (codes "light-locker")

unfoldable pub screenlock_row_light_locker : Option ℕ → Option ℕ → Row
screenlock_row_light_locker none blank = light_locker_row denied none
screenlock_row_light_locker (some after) none = light_locker_row unknown none
screenlock_row_light_locker (some after) (some zero) = light_locker_row denied (some 0)
screenlock_row_light_locker (some after) (some (suc blank)) =
    light_locker_row affirmed (some (u64 (suc blank + after)))

-- What the host gives: the output of a command that succeeds, the content of a file that is read.
pub record Host : Type 0 where
  pub xdg_current_desktop : Option Text
  pub gsettings_get : Text → Text → Option Text
  pub xfconf_get : Text → Text → Option Text
  pub xset : Option Text
  pub binary_on_path : Text → Bool
  pub read_autostart_entry : Text → Option Text
  pub system_kscreenlockerrc : Option Text
  pub user_kscreenlockerrc : Option Text
  pub hypridle_conf : Option Text

module _ (h : Host) where
  abbrev gsettings_bool : Text → Text → Option Bool
  gsettings_bool schema key = and_then (h.gsettings_get schema key) parse_gsettings_bool

  abbrev gsettings_uint : Text → Text → Option ℕ
  gsettings_uint schema key = and_then (h.gsettings_get schema key) parse_gsettings_uint

  abbrev xfconf_bool : Text → Option Bool
  xfconf_bool property =
      and_then (h.xfconf_get (codes "xfce4-screensaver") property) parse_gsettings_bool

  abbrev xfconf_uint : Text → Option ℕ
  xfconf_uint property =
      and_then (h.xfconf_get (codes "xfce4-screensaver") property) parse_gsettings_uint

  unfoldable pub collect_screenlock_xfce : Row
  collect_screenlock_xfce =
      if h.binary_on_path (codes "xfce4-screensaver")
      then screenlock_row_xfce_screensaver (xfconf_bool (codes "/saver/enabled"))
          (xfconf_bool (codes "/saver/idle-activation/enabled"))
          (xfconf_uint (codes "/saver/idle-activation/delay")) (xfconf_bool (codes "/lock/enabled"))
          (xfconf_bool (codes "/lock/saver-activation/enabled"))
          (xfconf_uint (codes "/lock/saver-activation/delay"))
      else if h.binary_on_path (codes "light-locker")
      then screenlock_row_light_locker
          (and_then (h.read_autostart_entry (codes "light-locker.desktop"))
            parse_light_locker_autostart)
          (and_then h.xset parse_xset_timeout)
      else screenlock_row (codes "xfce") unknown none (codes "none")

  module _ (round_minutes : Text → Option ℕ) where
    abbrev kde_file : Option Text → Option Bool × Option ℕ
    kde_file text = parse_kscreenlockerrc round_minutes (unwrap_or text [])

    abbrev or {ℓ} : {A : Type ℓ} → Option A → Option A → Option A
    or none b = b
    or (some a) b = some a

    abbrev pub desktop_row : Desktop → Row
    desktop_row gnome =
        screenlock_row_gsettings (codes "gnome")
          (gsettings_bool (codes "org.gnome.desktop.screensaver") (codes "lock-enabled"))
          (gsettings_uint (codes "org.gnome.desktop.session") (codes "idle-delay"))
          (gsettings_uint (codes "org.gnome.desktop.screensaver") (codes "lock-delay"))
    desktop_row cinnamon =
        screenlock_row_gsettings (codes "cinnamon")
          (gsettings_bool (codes "org.cinnamon.desktop.screensaver") (codes "lock-enabled"))
          (gsettings_uint (codes "org.cinnamon.desktop.session") (codes "idle-delay"))
          (gsettings_uint (codes "org.cinnamon.desktop.screensaver") (codes "lock-delay"))
    desktop_row mate =
        screenlock_row_mate
          (gsettings_bool (codes "org.mate.screensaver") (codes "idle-activation-enabled"))
          (gsettings_bool (codes "org.mate.screensaver") (codes "lock-enabled"))
          (gsettings_uint (codes "org.mate.session") (codes "idle-delay"))
          (gsettings_uint (codes "org.mate.screensaver") (codes "lock-delay"))
    desktop_row kde =
        let (sys_autolock, sys_timeout) = kde_file h.system_kscreenlockerrc in
        let (autolock, timeout_secs) = kde_file h.user_kscreenlockerrc in
        screenlock_row_kde (or autolock sys_autolock) (or timeout_secs sys_timeout)
    desktop_row hyprland =
        screenlock_row_hyprland (parse_hypridle_config (unwrap_or h.hypridle_conf []))
    desktop_row xfce = collect_screenlock_xfce
    desktop_row other = screenlock_row (codes "unknown") unknown none (codes "none")

    unfoldable pub collect_screenlock : Row
    collect_screenlock = desktop_row (detect_desktop h.xdg_current_desktop)
