-- ===== src/LinuxHost.antt =====
-- src-tauri/src/lib.rs: what the collectors read of a Linux host, down to commands and files: `gsettings_get`,
-- `xfconf_get`, `xset_blank_timeout`, `binary_on_path`, `read_autostart_entry`, `collect_screenlock` and
-- `collect_disk_encryption`. The programs, the file system and the directories of the `dirs` crate are the record
-- `LinuxHost`. `serde_json` is the parameter `from_str`.
use klaayguard.Prelude.{
  ℕ, Bool, true, false, List, [], ◌∷◌, ◌++◌, Option, none, some, any, flat_map, if◌then◌else◌,
  and_then, map_some, keep_if, unwrap_or, is_empty, ◌||◌,
}
use klaayguard.Text.{Text, codes, eq_text, ends_with, split}
use klaayguard.Text.Utf8.{encode_utf8, from_utf8_lossy}
use klaayguard.Json.{Value}
use klaayguard.Environment.{Env}
use klaayguard.Spawn.{Command, apply_appimage_sanitization}
use klaayguard.ScreenLock.{Row}
use klaayguard.ScreenLock.Linux.{Host, collect_screenlock}
use klaayguard.Disk.Rows.{build_disk_encryption_rows}
pub mod Clean
pub mod Silent

pub record Output : Type 0 where
  pub success : Bool
  pub stdout : List ℕ

-- `output` is what a command gives that runs in an environment, none if it does not start. `env` is what
-- `std::env::var` reads; a PATH that is not Unicode, which `var_os` reads too, is left out.
pub record LinuxHost : Type 0 where
  pub env : Env
  pub config_dir : Option Text
  pub home_dir : Option Text
  pub read_to_string : Text → Option Text
  pub is_file : Text → Bool
  pub output : Command → Env → Option Output

-- `String::from_utf8`: the text of which the bytes are the UTF-8
abbrev pub from_utf8 : List ℕ → Option Text
from_utf8 bytes =
    keep_if (λ s. eq_text (flat_map encode_utf8 s) bytes) (some (from_utf8_lossy bytes))

-- `Path::join` with a relative name
abbrev pub path_join : Text → Text → Text
path_join dir name =
    if is_empty dir || ends_with dir (codes "/") then dir ++ name else dir ++ (codes "/" ++ name)

module _ (h : LinuxHost) where
  -- the text that a command prints, which runs without the paths of an AppImage
  abbrev pub printed : Text → List Text → Option Text
  printed program args =
      and_then
        (keep_if (λ o. o.success)
          (h.output (record { program = program; args = args })
            (apply_appimage_sanitization h.env)))
        (λ o. from_utf8 o.stdout)

  abbrev pub gsettings_get : Text → Text → Option Text
  gsettings_get schema key = printed (codes "gsettings") (codes "get" ∷ schema ∷ key ∷ [])

  abbrev pub xfconf_get : Text → Text → Option Text
  xfconf_get channel property =
      printed (codes "xfconf-query") (codes "-c" ∷ channel ∷ codes "-p" ∷ property ∷ [])

  abbrev pub xset_q : Option Text
  xset_q = printed (codes "xset") (codes "q" ∷ [])

  abbrev pub installed : Text → Option Text → Bool
  installed name none = false
  installed name (some path) = any (λ d. h.is_file (path_join d name)) (split b':' path)

  abbrev pub binary_on_path : Text → Bool
  binary_on_path name = installed name (h.env (codes "PATH"))

  abbrev pub or_system : Text → Option Text → Option Text
  or_system name (some text) = some text
  or_system name none = h.read_to_string (codes "/etc/xdg/autostart/" ++ name)

  abbrev pub in_config : Text → Option Text
  in_config name = and_then h.config_dir (λ c. h.read_to_string (path_join c name))

  abbrev pub read_autostart_entry : Text → Option Text
  read_autostart_entry name = or_system name (in_config (codes "autostart/" ++ name))

  unfoldable pub desktop_host : Host
  desktop_host = record {
    xdg_current_desktop = h.env (codes "XDG_CURRENT_DESKTOP");
    gsettings_get = gsettings_get;
    xfconf_get = xfconf_get;
    xset = xset_q;
    binary_on_path = binary_on_path;
    read_autostart_entry = read_autostart_entry;
    system_kscreenlockerrc = h.read_to_string (codes "/etc/xdg/kscreenlockerrc");
    user_kscreenlockerrc = in_config (codes "kscreenlockerrc");
    hypridle_conf = in_config (codes "hypr/hypridle.conf");
  }

  abbrev pub collect_screenlock_linux : (Text → Option ℕ) → Row
  collect_screenlock_linux = collect_screenlock desktop_host

  abbrev pub lsblk : Option Text
  lsblk =
      printed (codes "lsblk") (
        codes "-J" ∷ codes "-o" ∷ codes "NAME,KNAME,TYPE,FSTYPE,MOUNTPOINT,MOUNTPOINTS,PKNAME" ∷ [])

  unfoldable pub collect_disk_encryption : (Text → Option Value) → Value
  collect_disk_encryption from_str =
      build_disk_encryption_rows (and_then lsblk from_str)
        (unwrap_or (h.read_to_string (codes "/proc/mounts")) []) h.home_dir
