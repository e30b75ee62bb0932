-- ===== src/Installer/Trusted.antt =====
-- src-tauri/src/lib.rs: what `run_update_check` may put in the place of the program.
use klaayguard.Prelude.{
  ℕ, ◌≡◌, refl, sym, subst, Bool, true, false, not, ◌&&◌, ◌||◌, arith, List, Option, none, some,
  if◌then◌else◌,
}
use klaayguard.Text.{Text, Result, ok, err}
use klaayguard.Autostart.{Process}
use klaayguard.Update.{Agent, ReleaseInfo, SelectedUpdate, Reply, sha256_matches}
use klaayguard.Update.Gate.{Fetched}
use klaayguard.Update.Offer.{
  Offers, UpToDate, Course, skipped, up_to_date, failed, ran, updated-ind,
}
use klaayguard.Installer.{Content}
use klaayguard.Installer.AppImage
use klaayguard.Installer.Nsis
use klaayguard.Installer.Nsis.{install_windows_update, reread, with_expected}
use klaayguard.Installer.Kept.{ReplacedAt, install_appimage_update-Replaced}
use klaayguard.Installer.Whole.{linux_agent, linux_update, windows_agent, windows_update}

module _ (sha256 : List ℕ → List ℕ) {V : Type 0} (semver : Text → Option V) (newer : V → V → Bool)
    (latest : Reply ReleaseInfo) (download : ℕ → Reply (List ℕ)) where
  -- These bytes were offered for this agent, fetched, and checked.
  abbrev pub Trusted : Agent → List ℕ → Type 0
  Trusted agent bytes =
      (u : SelectedUpdate) × Offers semver newer agent latest u
      × Fetched sha256 agent.platform u.expected (download u.asset_id) bytes

  -- An error leaves the image, and the process stays; a success puts trusted bytes in its place.
  abbrev pub LinuxAt : Agent → Content → AppImage.Outcome → Result (Unit {0}) → Type 0
  LinuxAt agent old o (ok u) = Trusted agent o.files.target × (o.files.staged ≡ none)
  LinuxAt agent old o (err m) = (o.files.target ≡ old) × (o.exits ≡ false)

  -- the image after an update check
  abbrev pub image_after : Content → Course AppImage.Outcome → Content
  image_after old (ran o) = o.files.target
  image_after old _ = old

  abbrev pub LinuxUpdated : Agent → Content → Course AppImage.Outcome → Type 0
  LinuxUpdated agent old (ran o) = LinuxAt agent old o o.result
  LinuxUpdated agent old up_to_date = UpToDate semver newer agent latest
  LinuxUpdated agent old (failed m) = image_after old (failed m) ≡ old
  LinuxUpdated agent old (skipped m) = true ≡ false

  ReplacedAt-LinuxAt :
      (f : AppImage.Faults) (agent : Agent) (old bytes : Content) (o : AppImage.Outcome)
      (r : Result (Unit {0}))
      → Trusted agent bytes
      → ReplacedAt f bytes old o r
      → LinuxAt agent old o r
  ReplacedAt-LinuxAt f agent old bytes o (ok u) t (target, staged) =
      (subst (Trusted agent) (sym target) t, staged)
  ReplacedAt-LinuxAt f agent old bytes o (err m) t q = q

  -- Whatever the API sends and whatever steps fail, an update check on Linux ends in one of four ways. It
  -- finds nothing to install, and then the latest release, of a successful reply, is not newer than this build
  -- or has no asset for this host. The check or the download fails, and no installer runs. The installer
  -- reports an error: the image is the one that was there, and the process keeps running. Or the image is the
  -- body of a successful download of an asset for this host of the latest release, which is newer than this
  -- build, with the hash that the release names.
  pub linux_update-LinuxUpdated :
      (f : AppImage.Faults) (p : Process) (d : AppImage.Files) (arch version : Text)
      → LinuxUpdated
          (linux_agent p arch version)
          d.target
          (linux_update sha256 semver newer latest download f p d arch version)
  unfolding linux_update
  linux_update-LinuxUpdated f p d arch version =
      let agent = linux_agent p arch version in
      updated-ind sha256 semver newer (λ u bytes. AppImage.install_appimage_update f p bytes d)
        agent latest download (LinuxUpdated agent d.target) (λ m. refl) (λ c. c)
        (λ u bytes o c.
          ReplacedAt-LinuxAt f agent d.target bytes (AppImage.install_appimage_update f p bytes d) _
            (u, o, c) (install_appimage_update-Replaced f p bytes d))

  -- An error has run no installer; a success has run one with the hash that the release names.
  abbrev pub WindowsAt : Agent → Nsis.Outcome → Result (Unit {0}) → Type 0
  WindowsAt agent o (ok u) =
      (found : Content) × (o.ran ≡ some found)
      × (u : SelectedUpdate) × Offers semver newer agent latest u
      × (expected : Text) × (u.expected ≡ some expected)
      × (sha256_matches sha256 found expected ≡ true)
  WindowsAt agent o (err m) = o.ran ≡ none

  abbrev pub started_with : Course Nsis.Outcome → Option Content
  started_with (ran o) = o.ran
  started_with _ = none

  abbrev pub Launched : Agent → Nsis.Outcome → Type 0
  Launched agent o = WindowsAt agent o o.result

  abbrev pub WindowsUpdated : Agent → Course Nsis.Outcome → Type 0
  WindowsUpdated agent (ran o) = Launched agent o
  WindowsUpdated agent up_to_date = UpToDate semver newer agent latest
  WindowsUpdated agent (failed m) = started_with (failed m) ≡ none
  WindowsUpdated agent (skipped m) = true ≡ false

  module _ (f : Nsis.Faults) (agent : Agent) (u : SelectedUpdate)
      (offers : Offers semver newer agent latest u) where
    if-Launched :
        (b : Bool) (x y : Nsis.Outcome)
        → Launched agent x
        → (b ≡ false → Launched agent y)
        → Launched agent (if b then x else y)
    if-Launched true x y h k = h
    if-Launched false x y h k = k refl

    reread-Launched :
        (expected : Text) (found : Option Content)
        → u.expected ≡ some expected
        → Launched agent (reread sha256 f expected found)
    reread-Launched expected none e = refl
    reread-Launched expected (some found) e =
        if-Launched (not (sha256_matches sha256 found expected)) _ _ refl (λ n.
          if-Launched (f.spawn && f.spawn_without_breakaway) _ _ refl
            (λ s. (found, refl, u, offers, expected, e, ground arith)))

    install-Launched :
        (o : Option Text) → u.expected ≡ o → Launched agent (with_expected sha256 f o)
    install-Launched none e = refl
    install-Launched (some expected) e = if-Launched f.no_data_dir _ _ refl (λ a.
        if-Launched f.create_dir _ _ refl (λ b.
          if-Launched (f.create || (f.write || f.sync)) _ _ refl
            (λ c. reread-Launched expected f.on_disk e)))

  -- Whatever the API sends and whatever is read back from the disk, an update check on Windows ends in one
  -- of four ways. It finds nothing to install, and then the latest release, of a successful reply, is not newer
  -- than this build or has no asset for this host. The check or the download fails, or the installation
  -- reports an error, and no installer is started. Or an installer is started whose content, as it was read
  -- back, has the hash that the latest release names for an asset for this host, and that release is newer than
  -- this build.
  pub windows_update-WindowsUpdated :
      (f : Nsis.Faults) (arch version : Text)
      → WindowsUpdated
          (windows_agent arch version)
          (windows_update sha256 semver newer latest download f arch version)
  unfolding windows_update install_windows_update
  windows_update-WindowsUpdated f arch version =
      let agent = windows_agent arch version in
      updated-ind sha256 semver newer (λ u bytes. install_windows_update sha256 f u.expected) agent
        latest download (WindowsUpdated agent) (λ m. refl) (λ c. c)
        (λ u bytes o c. install-Launched f agent u o u.expected refl)
