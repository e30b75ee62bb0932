-- ===== src/Installer/DiskImage.antt =====
-- src-tauri/src/lib.rs: `replace_application`, the update from a macOS disk image. What `hdiutil` prints and
-- whether the image can be detached are parameters; what was done is a list of actions.
use klaayguard.Prelude.{
  Bool, true, false, not, List, [], ◌∷◌, Option, none, some, find, and_then, keep_if, map_some,
  last?, is_empty, if◌then◌else◌,
}
use klaayguard.Text.{Text, codes, contains, lines, split, trim, Result, ok, err}
use klaayguard.Installer.{Content}
use klaayguard.Installer.Bundle.{Signature, Faults, Apps, stage_verify_and_swap}

unfoldable pub parse_hdiutil_mount_point : Text → Option Text
unfolding lines contains klaayguard.Text.split_by klaayguard.Text.trim_end_by
    klaayguard.Text.trim_start_by
parse_hdiutil_mount_point stdout =
    keep_if (λ s. not (is_empty s))
      (map_some (λ field. trim field)
        (and_then (find (λ line. contains line (codes "/Volumes/")) (lines stdout))
          (λ line. last? (split b'\t' line))))

pub data Relaunch : Type 0 where
  leave_it_to_launchd restart_self : Relaunch

unfoldable pub update_relaunch : Bool → Relaunch
update_relaunch true = leave_it_to_launchd
update_relaunch false = restart_self

pub data Action : Type 0 where
  detach : Text → Action  -- gracefully, else by force
  remove_image : Action
  relaunch : Relaunch → Action

pub data Attach : Type 0 where
  not_run : Attach
  refused : Attach
  printed : Text → Attach

pub record Outcome : Type 0 where
  pub result : Result (Unit {0})
  pub apps : Apps
  pub actions : List Action

module _ (signature : Content → Signature) (f : Faults) where
  abbrev pub install_from_mount : Bool → Apps → Result (Unit {0}) × Apps
  install_from_mount source_exists a =
      if not source_exists
      then (err (codes "Source app not found"), a)
      else stage_verify_and_swap signature f a

  -- the volume is detached and the image removed, whatever the installation gave
  abbrev pub finished : Text → Bool → Result (Unit {0}) × Apps → Outcome
  finished mount_point under_launchd (ok u, a) = record {
    result = ok tt;
    apps = a;
    actions = detach mount_point ∷ remove_image ∷ relaunch (update_relaunch under_launchd) ∷ [];
  }
  finished mount_point under_launchd (err m, a) = record {
    result = err m;
    apps = a;
    actions = detach mount_point ∷ remove_image ∷ [];
  }

  abbrev pub mounted : Bool → Bool → Apps → Option Text → Outcome
  mounted source_exists under_launchd a none = record {
    result = err (codes "Could not find mount point");
    apps = a;
    actions = [];
  }
  mounted source_exists under_launchd a (some mount_point) =
      finished mount_point under_launchd (install_from_mount source_exists a)

  abbrev pub attached : Bool → Bool → Apps → Attach → Outcome
  attached source_exists under_launchd a (printed out) =
      mounted source_exists under_launchd a (parse_hdiutil_mount_point out)
  attached source_exists under_launchd a other = record {
    result = err (codes "Failed to mount DMG");
    apps = a;
    actions = [];
  }

  unfoldable pub replace_application : Attach → Bool → Bool → Apps → Outcome
  unfolding parse_hdiutil_mount_point update_relaunch stage_verify_and_swap
  replace_application attach source_exists under_launchd a =
      attached source_exists under_launchd a attach
