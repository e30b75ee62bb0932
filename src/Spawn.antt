-- ===== src/Spawn.antt =====
-- src-tauri/src/lib.rs: the commands that the agent starts on Linux, and what they inherit from an AppImage. A
-- command is its name and its arguments; whether it starts is given by the host.
use klaayguard.Prelude.{
  ℕ, Bool, true, false, not, ◌&&◌, ◌||◌, List, [], ◌∷◌, ◌++◌, Option, none, some, filter, map,
  is_empty, if◌then◌else◌, and_then, keep_if, any, is_some,
}
use klaayguard.Text.{
  Text, codes, eq_text, starts_with, ends_with, split, join, trim, trim_end_matches, Result, ok,
  err, one_of,
}
use klaayguard.Environment.{Env}
pub mod Clean

abbrev pub under : Text → Text → Bool
under appdir p = eq_text p appdir || starts_with p (appdir ++ codes "/")

abbrev pub keeps : Text → Text → Bool
keeps appdir p = not (is_empty p) && not (under appdir p)

abbrev pub kept_or_none : List Text → Option Text
kept_or_none [] = none
kept_or_none (p ∷ ps) = some (join (codes ":") (p ∷ ps))

unfoldable pub strip_appimage_paths : Text → Text → Option Text
unfolding klaayguard.Text.split_by klaayguard.Text.trim_end_by eq_text starts_with join
strip_appimage_paths value appdir =
    kept_or_none (filter (keeps (trim_end_matches b'/' appdir)) (split b':' value))

abbrev pub appimage_child_env_vars : List Text
appimage_child_env_vars =
    codes "PATH"
    ∷ codes "LD_LIBRARY_PATH"
    ∷ codes "LD_PRELOAD"
    ∷ codes "XDG_DATA_DIRS"
    ∷ codes "GSETTINGS_SCHEMA_DIR"
    ∷ codes "GTK_PATH"
    ∷ codes "GTK_EXE_PREFIX"
    ∷ codes "GTK_DATA_PREFIX"
    ∷ codes "GTK_IM_MODULE_FILE"
    ∷ codes "GDK_PIXBUF_MODULE_FILE"
    ∷ codes "GIO_MODULE_DIR"
    ∷ codes "GIO_EXTRA_MODULES"
    ∷ []

abbrev pub stripped : Text → Option Text → Option Text
stripped appdir none = none
stripped appdir (some value) = strip_appimage_paths value appdir

abbrev pub sanitized : Option Text → Env → Env
sanitized none env name = env name
sanitized (some appdir) env name =
    if one_of name appimage_child_env_vars then stripped appdir (env name) else env name

-- the environment of the child
unfoldable pub apply_appimage_sanitization : Env → Env
unfolding strip_appimage_paths eq_text
apply_appimage_sanitization env =
    sanitized (keep_if (λ s. not (is_empty s)) (env (codes "APPDIR"))) env

-- `strip_suffix(".desktop")` of a text, by its start
abbrev strip_suffix : Text → Text → Option Text
strip_suffix [] suffix = if eq_text [] suffix then some [] else none
strip_suffix (c ∷ s) suffix =
    if eq_text (c ∷ s) suffix
    then some []
    else klaayguard.Prelude.map_some (λ (t : Text). c ∷ t) (strip_suffix s suffix)

unfoldable pub browser_binary_from_setting : Text → Option Text
unfolding eq_text klaayguard.Text.trim_end_by klaayguard.Text.trim_start_by
browser_binary_from_setting setting =
    keep_if (λ name. not (is_empty name)) (strip_suffix (trim setting) (codes ".desktop"))

pub record Command : Type 0 where
  pub program : Text
  pub args : List Text

module _ (starts : Command → Bool) where
  -- what is started, and whether it was
  abbrev open_with : Text → Text → Text → Option Command
  open_with program option url =
      keep_if starts (some (record { program = program; args = option ∷ url ∷ [] }))

  unfoldable pub open_in_new_browser_window : Option Text → Text → Option Command
  unfolding browser_binary_from_setting
  open_in_new_browser_window setting url =
      and_then (and_then setting browser_binary_from_setting)
        (λ browser. open_with browser (codes "--new-window") url)

  abbrev or_xdg : Text → Option Command → Option Command
  or_xdg url (some c) = some c
  or_xdg url none = keep_if starts (some (record { program = codes "xdg-open"; args = url ∷ [] }))

  -- a new window first, else a tab
  unfoldable pub open_url_in_browser : Option Text → Text → Option Command
  unfolding open_in_new_browser_window
  open_url_in_browser setting url = or_xdg url (open_in_new_browser_window setting url)

  abbrev clipboards : List Command
  clipboards =
      record { program = codes "wl-copy"; args = [] }
      ∷ record { program = codes "xclip"; args = codes "-selection" ∷ codes "clipboard" ∷ [] }
      ∷ record { program = codes "xsel"; args = codes "--clipboard" ∷ codes "--input" ∷ [] }
      ∷ []

  unfoldable pub copy_to_clipboard : Bool
  copy_to_clipboard = any starts clipboards

unfoldable pub notification_command : Text → Text → Text → Option Command
unfolding eq_text
notification_command os title body =
    if eq_text os (codes "macos")
    then some (record {
      program = codes "osascript";
      args =
          codes "-e"
          ∷ codes "on run argv"
          ∷ codes "-e"
          ∷ codes "display notification (item 1 of argv) with title (item 2 of argv)"
          ∷ codes "-e"
          ∷ codes "end run"
          ∷ body
          ∷ title
          ∷ [];
    })
    else if eq_text os (codes "linux")
    then some (record {
      program = codes "notify-send";
      args = codes "--app-name=KlaayGuard" ∷ codes "--" ∷ title ∷ body ∷ [];
    })
    else none
