-- ===== src/Installer/Bundle.antt =====
-- src-tauri/src/lib.rs: `stage_verify_and_swap` and `verify_klaay_signature`, the installation of a macOS
-- bundle. `codesign`, `spctl` and `ditto` are commands of the system, so what they give is a parameter. A
-- bundle is no empty directory, so that a rename over one fails.
use klaayguard.Prelude.{
  Bool, true, false, not, ◌||◌, ◌++◌, Option, none, some, any, if◌then◌else◌, is_some,
}
use klaayguard.Text.{Text, codes, eq_text, trim, lines, Result, ok, err}
use klaayguard.Installer.{Content, dropped}

abbrev pub klaay_team_id : Text
klaay_team_id = codes "8QK45RW8QK"

-- What the commands say of a bundle; none if the command could not be run.
pub record Signature : Type 0 where
  pub verify : Option Bool
  pub details : Option Text
  pub assess : Option Bool

-- the text of the details names the team on a line of its own
unfoldable pub team_ok : Text → Bool
unfolding eq_text lines
team_ok details =
    any (λ l. eq_text (trim l) (codes "TeamIdentifier=" ++ klaay_team_id)) (lines details)

abbrev pub assessed : Option Bool → Result (Unit {0})
assessed none = err (codes "spctl spawn failed")
assessed (some true) = ok tt
assessed (some false) = err (codes "Gatekeeper assessment failed (not notarized/accepted)")

abbrev pub detailed : Signature → Option Text → Result (Unit {0})
detailed s none = err (codes "codesign -d spawn failed")
detailed s (some details) =
    if not (team_ok details)
    then err (codes "update not signed by Klaay team")
    else assessed s.assess

abbrev pub checked : Signature → Option Bool → Result (Unit {0})
checked s none = err (codes "codesign spawn failed")
checked s (some false) = err (codes "codesign --verify failed")
checked s (some true) = detailed s s.details

unfoldable pub verify_klaay_signature : Signature → Result (Unit {0})
unfolding team_ok
verify_klaay_signature s = checked s s.verify

pub data Ditto : Type 0 where
  spawn_failed : Ditto
  copy_failed : Option Content → Ditto  -- with what it leaves
  copied : Content → Ditto

pub record Faults : Type 0 where
  pub clear_staged : Bool
  pub clear_backup : Bool
  pub ditto : Ditto
  pub aside : Bool
  pub swap : Bool
  pub back : Bool
  pub drop_backup : Bool
  pub drop_staged : Bool

pub record Apps : Type 0 where
  pub target : Option Content
  pub staged : Option Content
  pub backup : Option Content

abbrev pub cleared : Faults → Apps → Apps
cleared f a = record a {
  staged = dropped f.clear_staged a.staged;
  backup = dropped f.clear_backup a.backup;
}

-- the old app goes back, if there is one
abbrev pub rolled_back : Faults → Option Content → Apps → Apps
rolled_back f none a = record a { staged = dropped f.drop_staged a.staged }
rolled_back f (some old) a =
    if f.back
    then record a { staged = dropped f.drop_staged a.staged }
    else record { target = some old; staged = dropped f.drop_staged a.staged; backup = none }

abbrev pub moved_in : Faults → Content → Apps → Result (Unit {0}) × Apps
moved_in f new a =
    if f.swap
    then (err (codes "Failed to swap new app into place"), rolled_back f a.backup a)
    else (
      ok tt,
      record { target = some new; staged = none; backup = dropped f.drop_backup a.backup },
    )

abbrev pub swapped : Faults → Content → Option Content → Apps → Result (Unit {0}) × Apps
swapped f new none a = moved_in f new a
swapped f new (some old) a =
    if f.aside || is_some a.backup
    then (err (codes "Failed to move old app aside"), a)
    else moved_in f new (record a { target = none; backup = some old })

abbrev pub verified_swap : Faults → Content → Result (Unit {0}) → Apps → Result (Unit {0}) × Apps
verified_swap f new (err m) a = (
  err (codes "Refusing unverified update: " ++ m),
  record a { staged = dropped f.drop_staged (some new) },
)
verified_swap f new (ok u) a = swapped f new a.target (record a { staged = some new })

module _ (signature : Content → Signature) where
  abbrev pub staged_copy : Faults → Ditto → Apps → Result (Unit {0}) × Apps
  staged_copy f spawn_failed a = (err (codes "ditto spawn failed"), a)
  staged_copy f (copy_failed part) a = (
    err (codes "Failed to stage new app (ditto)"),
    record a { staged = dropped f.drop_staged part },
  )
  staged_copy f (copied new) a = verified_swap f new (verify_klaay_signature (signature new)) a

  unfoldable pub stage_verify_and_swap : Faults → Apps → Result (Unit {0}) × Apps
  unfolding verify_klaay_signature
  stage_verify_and_swap f a = staged_copy f f.ditto (cleared f a)
