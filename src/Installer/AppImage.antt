-- ===== src/Installer/AppImage.antt =====
-- src-tauri/src/lib.rs: `install_appimage_update` and `staged_sibling_path`.
use klaayguard.Prelude.{Bool, true, false, ◌||◌, Option, none, some, if◌then◌else◌, is_some}
use klaayguard.Text.{Text, codes, Result, ok, err}
use klaayguard.Autostart.{Process, own_appimage}
use klaayguard.Installer.{Content, dropped}

pub record Faults : Type 0 where
  pub create : Bool  -- an error but "already exists"
  pub remove : Bool
  pub recreate : Bool
  pub write : Bool
  pub partial : Content  -- what a failed write leaves
  pub sync : Bool
  pub chmod : Bool
  pub rename : Bool
  pub spawn : Bool

pub record Files : Type 0 where
  pub target : Content
  pub staged : Option Content

-- the result, the files, and whether the process exits for the new one
pub record Outcome : Type 0 where
  pub result : Result (Unit {0})
  pub files : Files
  pub exits : Bool

abbrev pub failed : Text → Files → Outcome
failed m d = record { result = err m; files = d; exits = false }

abbrev pub relaunched : Faults → Files → Outcome
relaunched f d = record { result = ok tt; files = d; exits = if f.spawn then false else true }

abbrev pub renamed : Faults → Content → Files → Outcome
renamed f bytes d =
    if f.rename
    then failed (codes "AppImage replace failed")
        (record d { staged = dropped f.remove (some bytes) })
    else relaunched f (record { target = bytes; staged = none })

-- what stands in the staged file after `write_all`
abbrev left : Faults → Content → Content
left f bytes = if f.write then f.partial else bytes

abbrev pub staged_write : Faults → Content → Files → Outcome
staged_write f bytes d =
    if f.write || (f.sync || f.chmod)
    then failed (codes "stage write failed")
        (record d { staged = dropped f.remove (some (left f bytes)) })
    else renamed f bytes d

-- A file that stands there already is removed, and the creation is tried once more.
abbrev pub reopened : Faults → Content → Files → Outcome
reopened f bytes d =
    if f.recreate || is_some d.staged
    then failed (codes "stage create failed") d
    else staged_write f bytes d

abbrev pub opened : Faults → Content → Files → Outcome
opened f bytes d =
    if f.create
    then failed (codes "stage create failed") d
    else if is_some d.staged
    then reopened f bytes (record d { staged = dropped f.remove d.staged })
    else staged_write f bytes d

abbrev pub with_target : Faults → Content → Option Text → Files → Outcome
with_target f bytes none d =
    failed (codes "APPIMAGE not set or not this process's image; not an AppImage install") d
with_target f bytes (some target) d = opened f bytes d

unfoldable pub install_appimage_update : Faults → Process → Content → Files → Outcome
unfolding own_appimage
install_appimage_update f p bytes d = with_target f bytes (own_appimage p) d
