-- ===== src/LinuxHost/Silent.antt =====
-- src-tauri/src/lib.rs: the Linux screen lock row of a host on which nothing answers.
use klaayguard.Prelude.{ℕ, ◌≡◌, refl, Option, none, some, keep_if, and_then}
use klaayguard.Text.{Text, codes}
use klaayguard.Environment.{Env}
use klaayguard.Spawn.{Command}
use klaayguard.ScreenLock.Parse.{detect_desktop}
use klaayguard.ScreenLock.Silent.{IsSilent, silent_verdict, collect_screenlock-silent}
use klaayguard.LinuxHost.{
  LinuxHost, path_join, desktop_host, binary_on_path, collect_screenlock_linux, in_config,
}

-- no program ends with a success, and no file can be read
pub record IsMute (h : LinuxHost) : Type 0 where
  pub no_success : (c : Command) (e : Env) → keep_if (λ o. o.success) (h.output c e) ≡ none
  pub no_file : (path : Text) → h.read_to_string path ≡ none

module _ (h : LinuxHost) (mute : IsMute h) where
  in_config-none : (name : Text) → in_config h name ≡ none
  in_config-none name = in_dir h.config_dir
    where
      in_dir : (dir : Option Text) → and_then dir (λ c. h.read_to_string (path_join c name)) ≡ none
      in_dir none = refl
      in_dir (some c) = mute.no_file (path_join c name)

  desktop_host-IsSilent : IsSilent (desktop_host h)
  unfolding desktop_host
  desktop_host-IsSilent = record {
    no_gsettings = λ schema key. rw (mute.no_success) refl;
    no_xfconf = λ channel property. rw (mute.no_success) refl;
    no_xset = rw (mute.no_success) refl;
    no_autostart = λ name. rw (in_config-none, mute.no_file) refl;
    no_system_kde = mute.no_file _;
    no_user_kde = in_config-none _;
    no_hypridle = in_config-none _;
  }

-- On a host where no program ends with a success and no file can be read, the row says "no" in one case, XFCE with
-- light-locker on the PATH and no xfce4-screensaver; elsewhere it says "unknown", or the "yes" of the shipped
-- defaults of KDE and of xfce4-screensaver.
pub collect_screenlock_linux-silent :
    (h : LinuxHost) (round_minutes : Text → Option ℕ)
    → IsMute h
    → (collect_screenlock_linux h round_minutes).enabled
      ≡ silent_verdict
          (binary_on_path h (codes "xfce4-screensaver"))
          (binary_on_path h (codes "light-locker"))
          (detect_desktop (h.env (codes "XDG_CURRENT_DESKTOP")))
unfolding desktop_host
collect_screenlock_linux-silent h round_minutes mute =
    collect_screenlock-silent (desktop_host h) round_minutes (desktop_host-IsSilent h mute)
