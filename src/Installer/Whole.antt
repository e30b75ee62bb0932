-- ===== src/Installer/Whole.antt =====
-- src-tauri/src/lib.rs: `run_update_check` on each platform, from the check to the program that is in place. The
-- disk image of macOS is staged in a file of the process.
use klaayguard.Prelude.{ℕ, Bool, false, not, List, Option, none, some, [], is_some, if◌then◌else◌}
use klaayguard.Text.{Text, codes, err}
use klaayguard.Autostart.{Process, own_appimage}
use klaayguard.LaunchAgent.{not_the_installed_app, app_bundle_path}
use klaayguard.Update.{linux, windows, macos, Agent, ReleaseInfo, Reply}
use klaayguard.Update.Offer.{Course, skipped, updated}
use klaayguard.Installer.{Content}
use klaayguard.Installer.AppImage
use klaayguard.Installer.AppImage.{install_appimage_update}
use klaayguard.Installer.Nsis
use klaayguard.Installer.Nsis.{install_windows_update}
use klaayguard.Installer.Bundle
use klaayguard.Installer.Bundle.{Signature, Apps}
use klaayguard.Installer.DiskImage
use klaayguard.Installer.DiskImage.{Attach, replace_application}

-- What the update of a Mac meets beside the steps of `Bundle.Faults`.
pub record MacHost : Type 0 where
  pub current_exe : Option Text
  pub installed_exists : Bool
  pub writable : Bool  -- access to /Applications
  pub create : Bool
  pub write : Bool
  pub attach : Content → Attach  -- of the staged image
  pub source_exists : Bool
  pub under_launchd : Bool

abbrev pub linux_agent : Process → Text → Text → Agent
linux_agent p arch version = record {
  platform = linux;
  arch = arch;
  own_appimage = is_some (own_appimage p);
  current_version = version;
}

abbrev pub windows_agent : Text → Text → Agent
windows_agent arch version = record {
  platform = windows;
  arch = arch;
  own_appimage = false;
  current_version = version;
}

abbrev pub mac_agent : Text → Text → Agent
mac_agent arch version = record {
  platform = macos;
  arch = arch;
  own_appimage = false;
  current_version = version;
}

-- an installation that has done nothing
abbrev pub untouched : Apps → Text → DiskImage.Outcome
untouched a m = record { result = err m; apps = a; actions = [] }

module _ (sha256 : List ℕ → List ℕ) {V : Type 0} (semver : Text → Option V) (newer : V → V → Bool)
    (latest : Reply ReleaseInfo) (download : ℕ → Reply (List ℕ)) where
  module _ (f : AppImage.Faults) (p : Process) (d : AppImage.Files) where
    unfoldable pub linux_update : Text → Text → Course AppImage.Outcome
    unfolding updated install_appimage_update
    linux_update arch version =
        updated sha256 semver newer (λ u bytes. install_appimage_update f p bytes d)
          (linux_agent p arch version) latest download

  unfoldable pub windows_update : Nsis.Faults → Text → Text → Course Nsis.Outcome
  unfolding updated install_windows_update
  windows_update f arch version =
      updated sha256 semver newer (λ u bytes. install_windows_update sha256 f u.expected)
        (windows_agent arch version) latest download

  -- `f` says what the steps meet once the image with these bytes is attached, the app that `ditto` copies out
  -- of it among them.
  module _ (signature : Content → Signature) (f : Content → Bundle.Faults) (h : MacHost)
      (a : Apps) where
    abbrev pub staged_image : Content → DiskImage.Outcome
    staged_image bytes =
        if not h.writable
        then untouched a (codes "No write access to /Applications")
        else if h.create
        then untouched a (codes "Failed to create update file")
        else if h.write
        then untouched a (codes "Write error")
        else replace_application signature (f bytes) (h.attach bytes) h.source_exists
            h.under_launchd a

    abbrev pub mac_checked : Text → Text → Option Text → Course DiskImage.Outcome
    mac_checked arch version (some reason) = skipped reason
    mac_checked arch version none =
        updated sha256 semver newer (λ u bytes. staged_image bytes) (mac_agent arch version) latest
          download

    abbrev pub mac_from : Text → Text → Option Text → Course DiskImage.Outcome
    mac_from arch version none = skipped (codes "no executable path")
    mac_from arch version (some exe) =
        mac_checked arch version (not_the_installed_app exe app_bundle_path h.installed_exists)

    unfoldable pub mac_update : Text → Text → Course DiskImage.Outcome
    unfolding updated replace_application not_the_installed_app
    mac_update arch version = mac_from arch version h.current_exe
