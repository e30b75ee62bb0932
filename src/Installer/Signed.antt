-- ===== src/Installer/Signed.antt =====
-- src-tauri/src/lib.rs: what `run_update_check` may put in the place of the app on macOS.
use klaayguard.Prelude.{
  ℕ, ◌≡◌, refl, ◌⊎◌, inl, inr, Bool, true, false, not, List, Option, none, some, if◌then◌else◌,
  is_some, Bool-cases,
}
use klaayguard.Text.{Text, Result, ok, err}
use klaayguard.LaunchAgent.{not_the_installed_app, may_write_launch_agent, app_bundle_path}
use klaayguard.Update.{ReleaseInfo, Reply}
use klaayguard.Update.Offer.{UpToDate, Course, skipped, up_to_date, failed, ran, updated-ind}
use klaayguard.Installer.{Content}
use klaayguard.Installer.Bundle
use klaayguard.Installer.Bundle.{Signature, Apps}
use klaayguard.Installer.DiskImage
use klaayguard.Installer.DiskImage.{
  Attach, not_run, refused, printed, install_from_mount, finished, mounted, attached,
  replace_application,
}
use klaayguard.Installer.Kept.{Safe, Verified, stage_verify_and_swap-Safe}
use klaayguard.Installer.Trusted.{Trusted}
use klaayguard.Installer.Whole.{MacHost, mac_agent, staged_image, mac_checked, mac_from, mac_update}

module _ (signature : Content → Signature) (f : Bundle.Faults) (old : Content) where
  abbrev outcome : DiskImage.Outcome → Result (Unit {0}) × Apps
  outcome o = (o.result, o.apps)

  finished-Safe :
      (mount_point : Text) (b : Bool) (r : Result (Unit {0}) × Apps)
      → Safe signature f old r
      → Safe signature f old (outcome (finished signature f mount_point b r))
  finished-Safe mount_point b (ok u, a) s = s
  finished-Safe mount_point b (err m, a) s = s

  install_from_mount-Safe :
      (b : Bool) (a : Apps)
      → a.target ≡ some old
      → Safe signature f old (install_from_mount signature f b a)
  install_from_mount-Safe true a t = stage_verify_and_swap-Safe signature f old a t
  install_from_mount-Safe false a t = inl t

  mounted-Safe :
      (b l : Bool) (a : Apps) (o : Option Text)
      → a.target ≡ some old
      → Safe signature f old (outcome (mounted signature f b l a o))
  mounted-Safe b l a none t = inl t
  mounted-Safe b l a (some mount_point) t =
      finished-Safe mount_point l (install_from_mount signature f b a)
        (install_from_mount-Safe b a t)

  pub replace_application-Safe :
      (attach : Attach) (b l : Bool) (a : Apps)
      → a.target ≡ some old
      → Safe signature f old (outcome (replace_application signature f attach b l a))
  unfolding replace_application
  replace_application-Safe not_run b l a t = inl t
  replace_application-Safe refused b l a t = inl t
  replace_application-Safe (printed out) b l a t = mounted-Safe b l a _ t

gate :
    (exe : Text) (there : Bool)
    → may_write_launch_agent exe app_bundle_path there ≡ false
    → is_some (not_the_installed_app exe app_bundle_path there) ≡ true
unfolding not_the_installed_app
gate exe there w = rw w refl

gate_open :
    (exe : Text) (there : Bool)
    → may_write_launch_agent exe app_bundle_path there ≡ true
    → not_the_installed_app exe app_bundle_path there ≡ none
unfolding not_the_installed_app
gate_open exe there w = rw w refl

module _ (sha256 : List ℕ → List ℕ) {V : Type 0} (semver : Text → Option V) (newer : V → V → Bool)
    (latest : Reply ReleaseInfo) (download : ℕ → Reply (List ℕ)) (signature : Content → Signature)
    (f : Content → Bundle.Faults) (h : MacHost) (a : Apps) (old : Content)
    (there : a.target ≡ some old) (arch version : Text) where
  -- The disk image was offered, fetched and checked.
  abbrev pub Image : Content → Type 0
  Image = Trusted sha256 semver newer latest download (mac_agent arch version)

  -- This build is the app that is installed.
  abbrev pub Installed : Type 0
  Installed =
      (exe : Text) × (h.current_exe ≡ some exe)
      × (may_write_launch_agent exe app_bundle_path h.installed_exists ≡ true)

  abbrev pub Elsewhere : Type 0
  Elsewhere =
      (h.current_exe ≡ none)
      ⊎ ((exe : Text) × (h.current_exe ≡ some exe)
          × (may_write_launch_agent exe app_bundle_path h.installed_exists ≡ false))

  -- the app that `ditto` copied out of the image with these bytes passes the checks and is in place
  abbrev pub SignedAt : Content → DiskImage.Outcome → Result (Unit {0}) → Type 0
  SignedAt bytes o (ok u) =
      (new : Content) × Verified signature (f bytes) old new × (o.apps.target ≡ some new)
  SignedAt bytes o (err m) =
      (o.apps.target ≡ some old)
      ⊎ (((f bytes).back ≡ true) × (o.apps.target ≡ none) × (o.apps.backup ≡ some old))

  abbrev pub apps_after : Course DiskImage.Outcome → Apps
  apps_after (ran o) = o.apps
  apps_after _ = a

  abbrev pub SignedUpdate : Course DiskImage.Outcome → Type 0
  SignedUpdate (ran o) = Installed × ((bytes : Content) × Image bytes × SignedAt bytes o o.result)
  SignedUpdate up_to_date = UpToDate semver newer (mac_agent arch version) latest
  SignedUpdate (failed m) = (apps_after (failed m)).target ≡ some old
  SignedUpdate (skipped m) = Elsewhere

  Safe-SignedAt :
      (bytes : Content) (o : DiskImage.Outcome) (r : Result (Unit {0}))
      → Safe signature (f bytes) old (r, o.apps)
      → SignedAt bytes o r
  Safe-SignedAt bytes o (ok u) s = s
  Safe-SignedAt bytes o (err m) s = s

  if-SignedAt :
      (bytes : Content) (b : Bool) (x y : DiskImage.Outcome)
      → SignedAt bytes x x.result
      → SignedAt bytes y y.result
      → SignedAt bytes (if b then x else y) (if b then x else y).result
  if-SignedAt bytes true x y s t = s
  if-SignedAt bytes false x y s t = t

  staged_image-SignedAt :
      (bytes : Content)
      → let o = staged_image sha256 semver newer latest download signature f h a bytes in
        SignedAt bytes o o.result
  staged_image-SignedAt bytes =
      let swap =
        replace_application signature (f bytes) (h.attach bytes) h.source_exists h.under_launchd
          a in
      let safe =
        replace_application-Safe signature (f bytes) old (h.attach bytes) h.source_exists
          h.under_launchd a there in
      if-SignedAt bytes (not h.writable) _ _ (inl there) (
        if-SignedAt bytes h.create _ _ (inl there)
          (if-SignedAt bytes h.write _ _ (inl there) (Safe-SignedAt bytes swap swap.result safe)))

  checked-SignedUpdate :
      Installed
      → (o : Option Text) → o ≡ none
      → SignedUpdate
          (mac_checked sha256 semver newer latest download signature f h a arch version o)
  checked-SignedUpdate i (some reason) e = absurd (cc e)
  checked-SignedUpdate i none e =
      updated-ind sha256 semver newer
        (λ u bytes. staged_image sha256 semver newer latest download signature f h a bytes)
        (mac_agent arch version) latest download SignedUpdate (λ m. there) (λ c. c)
        (λ u bytes o c. (i, (bytes, (u, o, c), staged_image-SignedAt bytes)))

  refused-SignedUpdate :
      Elsewhere
      → (o : Option Text) → is_some o ≡ true
      → SignedUpdate
          (mac_checked sha256 semver newer latest download signature f h a arch version o)
  refused-SignedUpdate w none e = absurd (cc e)
  refused-SignedUpdate w (some reason) e = w

  from-SignedUpdate :
      (o : Option Text)
      → h.current_exe ≡ o
      → SignedUpdate (mac_from sha256 semver newer latest download signature f h a arch version o)
  from-SignedUpdate none e = inl e
  from-SignedUpdate (some exe) e =
      elim (Bool-cases (may_write_launch_agent exe app_bundle_path h.installed_exists)) [
        | inl w ↦ checked-SignedUpdate (exe, e, w) _ (gate_open exe h.installed_exists w)
        | inr w ↦ refused-SignedUpdate (inr (exe, e, w)) _ (gate exe h.installed_exists w)
      ]

  -- Whatever the API sends and whatever steps fail, with an app in place: an update check on macOS is skipped only
  -- by a build that is not the app that is installed, or that cannot tell its path. It finds nothing to install
  -- only where the latest release is not newer than this build or has no asset for this host. Where the check or
  -- the download fails, the old app stays in its place. An installer runs in the installed app alone, on an image
  -- that was an asset for this host of the latest release, which is newer than this build, and that has the hash
  -- of that release, where it names one. If it reports no error, the app that was copied out of this image passes
  -- the checks of the signature and is in place; if it reports one, the old app is in its place, or beside it,
  -- where the roll back itself failed.
  pub mac_update-SignedUpdate :
      SignedUpdate (mac_update sha256 semver newer latest download signature f h a arch version)
  unfolding mac_update
  mac_update-SignedUpdate = from-SignedUpdate h.current_exe refl
