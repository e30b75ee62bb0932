-- ===== src/Installer/Nsis.antt =====
-- src-tauri/src/lib.rs: `install_windows_update`. The installer runs from a file of the user's own directory,
-- read back before it runs.
use klaayguard.Prelude.{ℕ, Bool, not, ◌||◌, ◌&&◌, List, Option, none, some, if◌then◌else◌, [], ◌∷◌}
use klaayguard.Text.{Text, codes, Result, ok, err}
use klaayguard.Update.{sha256_matches}
use klaayguard.Installer.{Content}

pub record Faults : Type 0 where
  pub no_data_dir : Bool
  pub create_dir : Bool
  pub create : Bool
  pub write : Bool
  pub sync : Bool
  pub on_disk : Option Content  -- what is read back
  pub spawn : Bool
  pub spawn_without_breakaway : Bool

-- the result, and the content that the installer was started with
pub record Outcome : Type 0 where
  pub result : Result (Unit {0})
  pub ran : Option Content

abbrev pub failed : Text → Outcome
failed m = record { result = err m; ran = none }

abbrev pub windows_installer_args : List Text
windows_installer_args = codes "/S" ∷ codes "/UPDATE" ∷ codes "/R" ∷ []

abbrev pub launch : Faults → Content → Outcome
launch f found =
    if f.spawn && f.spawn_without_breakaway
    then failed (codes "installer spawn failed")
    else record { result = ok tt; ran = some found }

module _ (sha256 : List ℕ → List ℕ) where
  abbrev pub reread : Faults → Text → Option Content → Outcome
  reread f expected none = failed (codes "re-read installer")
  reread f expected (some found) =
      if not (sha256_matches sha256 found expected)
      then failed (codes "Staged Windows installer does not match its checksum")
      else launch f found

  abbrev pub with_expected : Faults → Option Text → Outcome
  with_expected f none = failed (codes "no checksum for the Windows update")
  with_expected f (some expected) =
      if f.no_data_dir
      then failed (codes "no local app data directory")
      else if f.create_dir
      then failed (codes "update dir")
      else if f.create || (f.write || f.sync)
      then failed (codes "stage installer")
      else reread f expected f.on_disk

  unfoldable pub install_windows_update : Faults → Option Text → Outcome
  unfolding sha256_matches
  install_windows_update f expected = with_expected f expected
