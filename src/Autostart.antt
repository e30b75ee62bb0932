-- ===== src/Autostart.antt =====
-- src-tauri/src/lib.rs: the autostart entry of Linux: the text of the entry, whether the user disabled it, and
-- its installation. An `OsString` is a text. The home's file system is the entry and the temporary file beside
-- it, with the steps that fail given by `Faults`; an error is its fixed text.
use klaayguard.Prelude.{
  ℕ, Bool, true, false, not, ◌&&◌, ◌||◌, List, [], ◌∷◌, ◌++◌, Option, none, some, any, filter,
  flat_map, ◌==◌, if◌then◌else◌, unwrap_or, keep_if, is_empty, and_then,
}
use klaayguard.Text.{
  Text, codes, eq_text, trim, to_ascii_lowercase, lines, contains_char, Result, ok, err,
}
use klaayguard.Text.Path.{path_starts_with, is_absolute}
pub mod Install
pub mod RunKey

-- the four characters that a backslash goes before
abbrev pub is_reserved : ℕ → Bool
is_reserved c = c == b'"' || (c == b'`' || (c == b'$' || c == b'\\'))

abbrev pub exec_char : ℕ → Text
exec_char c = if is_reserved c then b'\\' ∷ c ∷ [] else if c == b'%' then codes "%%" else c ∷ []

unfoldable pub desktop_exec_field : Text → Text
desktop_exec_field path = b'"' ∷ (flat_map exec_char path ++ (b'"' ∷ []))

abbrev pub before_exec : Text
before_exec =
    codes "[Desktop Entry]\nType=Application\nName=KlaayGuard\nComment=KlaayGuard security agent\n"

abbrev pub after_exec : Text
after_exec = codes "\nTerminal=false\nX-GNOME-Autostart-enabled=true\n"

unfoldable pub autostart_entry : Text → Text
unfolding desktop_exec_field
autostart_entry exec = before_exec ++ (codes "Exec=" ++ (desktop_exec_field exec ++ after_exec))

unfoldable pub autostart_exec : Option Text → Text → Text
autostart_exec appimage_env current_exe =
    unwrap_or (keep_if (λ s. not (is_empty s)) appimage_env) current_exe

unfoldable pub appimage_is_own : Text → Text → Text → Bool
unfolding path_starts_with is_absolute
appimage_is_own appimage appdir current_exe =
    is_absolute appimage && (is_absolute appdir && path_starts_with current_exe appdir)

-- What the process finds of itself.
pub record Process : Type 0 where
  pub config_dir : Option Text
  pub current_exe : Option Text
  pub appimage : Option Text
  pub appdir : Option Text
  pub is_file : Text → Bool

unfoldable pub own_appimage : Process → Option Text
unfolding appimage_is_own
own_appimage p = and_then p.appimage (λ appimage. and_then p.appdir (λ appdir.
    and_then p.current_exe (λ exe.
      if appimage_is_own appimage appdir exe && p.is_file appimage then some appimage else none)))

-- a line without its spaces, in lower case
abbrev setting : Text → Text
setting line = to_ascii_lowercase (filter (λ c. not (c == b' ')) (trim line))

abbrev disables : Text → Bool
disables line =
    let l = setting line in
    eq_text l (codes "x-gnome-autostart-enabled=false") || eq_text l (codes "hidden=true")

unfoldable pub autostart_is_user_disabled : Text → Bool
unfolding lines eq_text
autostart_is_user_disabled contents = any disables (lines contents)

pub record Faults : Type 0 where
  pub read : Bool
  pub create_dir : Bool
  pub write : Bool
  pub partial : Option Text  -- the temporary file after a failed write
  pub rename : Bool

pub record Files : Type 0 where
  pub entry : Option Text
  pub tmp : Option Text

abbrev pub renamed : Faults → Text → Files → Result (Unit {0}) × Files
renamed f entry d =
    if f.rename
    then (err (codes "rename"), record d { tmp = some entry })
    else (ok tt, record { entry = some entry; tmp = none })

abbrev pub written : Faults → Text → Files → Result (Unit {0}) × Files
written f entry d =
    if f.create_dir
    then (err (codes "create_dir_all"), d)
    else if f.write
    then (err (codes "write"), record d { tmp = f.partial })
    else renamed f entry d

-- `read_to_string`, an error ignored
abbrev pub existing : Faults → Files → Option Text
existing f d = if f.read then none else d.entry

abbrev pub refreshed : Faults → Text → Option Text → Files → Result (Unit {0}) × Files
refreshed f entry none d = written f entry d
refreshed f entry (some old) d =
    if autostart_is_user_disabled old
    then (ok tt, d)
    else if eq_text old entry
    then (ok tt, d)
    else written f entry d

abbrev pub entry_of : Process → Text → Text
entry_of p exe = autostart_entry (autostart_exec (own_appimage p) exe)

abbrev pub with_exe : Faults → Process → Option Text → Files → Result (Unit {0}) × Files
with_exe f p none d = (err (codes "current_exe"), d)
with_exe f p (some exe) d = refreshed f (entry_of p exe) (existing f d) d

abbrev pub with_dir : Faults → Process → Option Text → Files → Result (Unit {0}) × Files
with_dir f p none d = (err (codes "no config directory"), d)
with_dir f p (some dir) d = with_exe f p p.current_exe d

unfoldable pub install_autostart_entry : Faults → Process → Files → Result (Unit {0}) × Files
unfolding autostart_entry autostart_exec own_appimage autostart_is_user_disabled eq_text
install_autostart_entry f p d = with_dir f p p.config_dir d
