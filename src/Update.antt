-- ===== src/Update.antt =====
-- src-tauri/src/lib.rs: the self update, up to the call that installs the bytes. SHA-256 and the semver
-- crate are parameters, and so are the replies of the API; the installation itself and the place of
-- the running bundle on macOS are I/O, and logging is left out.
use klaayguard.Prelude.{
  ℕ, ◌-◌, Bool, true, false, not, ◌&&◌, List, [], ◌∷◌, ◌++◌, Option, none, some, leb, if◌then◌else◌,
  and_then, find, is_none, map_some,
}
use klaayguard.Text.{
  Text, codes, eq_text, ends_with, contains, hex_lower, to_ascii_lowercase, trim_start_matches,
  Result, ok, err,
}
use klaayguard.Http.{is_success}
pub mod Gate
pub mod Offer
pub mod Schedule

pub record ReleaseAsset : Type 0 where
  pub id : ℕ
  pub name : Text
  pub original_name : Option Text
  pub sha256 : Option Text

pub record ReleaseInfo : Type 0 where
  pub version : Text
  pub assets : List ReleaseAsset

pub record SelectedUpdate : Type 0 where
  pub asset_id : ℕ
  pub expected : Option Text  -- its field `sha256`

-- the file name ends and continues as this platform's artifacts do
abbrev pub named : Text → Text → Option Text → Bool
named extension infix_ none = false
named extension infix_ (some n) = ends_with n extension && contains n infix_

abbrev pub is_appimage : Text → ReleaseAsset → Bool
is_appimage arch asset = named (codes ".AppImage") (codes "Linux_" ++ arch) asset.original_name

unfoldable pub select_appimage_asset : List ReleaseAsset → Text → Option ReleaseAsset
select_appimage_asset assets arch = find (is_appimage arch) assets

unfoldable pub windows_arch_tag : Text → Option Text
windows_arch_tag arch =
    if eq_text arch (codes "x86_64")
    then some (codes "x64")
    else if eq_text arch (codes "aarch64")
    then some (codes "arm64")
    else none

abbrev pub is_installer : Text → ReleaseAsset → Bool
is_installer tag asset = named (codes ".exe") (codes "Windows_" ++ tag) asset.original_name

unfoldable pub select_windows_installer_asset : List ReleaseAsset → Text → Option ReleaseAsset
select_windows_installer_asset assets tag = find (is_installer tag) assets

-- the file name and the label of the macOS artifacts
unfoldable pub host_arch_tags : Text → Option (Text × Text)
host_arch_tags arch =
    if eq_text arch (codes "aarch64")
    then some (codes "macOS_arm64", codes "Apple silicon")
    else if eq_text arch (codes "x86_64")
    then some (codes "macOS_x64", codes "Intel")
    else none

-- the label counts only where there is no file name
abbrev pub is_dmg : Text → Text → ReleaseAsset → Bool
is_dmg tag label asset = elim asset.original_name [
  | some orig ↦ ends_with orig (codes ".dmg") && contains orig tag
  | none ↦ contains asset.name label
]

unfoldable pub select_dmg_asset : List ReleaseAsset → Text → Text → Option ReleaseAsset
select_dmg_asset assets tag label = find (is_dmg tag label) assets

pub data Platform : Type 0 where
  linux windows macos : Platform

abbrev pub with_dmg : List ReleaseAsset → Option (Text × Text) → Option ReleaseAsset
with_dmg assets none = none
with_dmg assets (some (tag, label)) = select_dmg_asset assets tag label

-- The asset for this host. On Linux only an AppImage updates itself.
abbrev pub select_asset : Platform → Text → Bool → List ReleaseAsset → Option ReleaseAsset
select_asset linux arch own_appimage assets =
    if own_appimage then select_appimage_asset assets arch else none
select_asset windows arch own_appimage assets =
    and_then (windows_arch_tag arch) (select_windows_installer_asset assets)
select_asset macos arch own_appimage assets = with_dmg assets (host_arch_tags arch)

unfoldable pub update_requires_checksum : Platform → Bool
update_requires_checksum macos = false
update_requires_checksum linux = true
update_requires_checksum windows = true

-- `trim_start_matches("sha256:")`
abbrev strip_sha256 : Text → Text
strip_sha256 (a ∷ b ∷ c ∷ d ∷ e ∷ f ∷ g ∷ s) =
    let rest = strip_sha256 s in
    if eq_text (a ∷ b ∷ c ∷ d ∷ e ∷ f ∷ g ∷ []) (codes "sha256:")
    then rest
    else a ∷ b ∷ c ∷ d ∷ e ∷ f ∷ g ∷ s
strip_sha256 s = s

-- A reply with a status, and what reading its body gives; or no reply.
pub data Reply (A : Type 0) : Type 0 where
  no_reply : Text → Reply A
  reply : ℕ → Result A → Reply A

-- What the updater does with a host's platform, architecture and own AppImage.
pub record Agent : Type 0 where
  pub platform : Platform
  pub arch : Text
  pub own_appimage : Bool
  pub current_version : Text

abbrev pub selected : Option ReleaseAsset → Option SelectedUpdate
selected = map_some (λ a. record { asset_id = a.id; expected = a.sha256 })

module _ {V : Type 0} (semver : Text → Option V) where
  abbrev pub version_of : Text → Option V
  version_of text = semver (trim_start_matches b'v' text)

module _ {V : Type 0} (newer : V → V → Bool) where
  abbrev pub offered : Agent → ReleaseInfo → Option V → Option V → Result (Option SelectedUpdate)
  offered agent release none r = err (codes "Invalid current version format")
  offered agent release (some c) none = err (codes "Invalid release version format")
  offered agent release (some c) (some r) =
      if newer r c
      then ok (selected (select_asset agent.platform agent.arch agent.own_appimage release.assets))
      else ok none

module _ (sha256 : List ℕ → List ℕ) where
  unfoldable pub sha256_matches : List ℕ → Text → Bool
  sha256_matches bytes expected =
      eq_text (to_ascii_lowercase (hex_lower (sha256 bytes)))
        (to_ascii_lowercase (strip_sha256 expected))

  -- the checks between the download and the installation
  abbrev pub verified : Platform → Option Text → List ℕ → Result (List ℕ)
  verified platform (some expected) bytes =
      if not (sha256_matches bytes expected)
      then err (codes "Update checksum mismatch for expected " ++ expected)
      else ok bytes
  verified platform none bytes =
      if update_requires_checksum platform
      then err (codes "No checksum for the update; refusing to install")
      else ok bytes

  abbrev pub downloaded : Platform → Option Text → Result (List ℕ) → Result (List ℕ)
  downloaded platform expected (ok bytes) = verified platform expected bytes
  downloaded platform expected (err e) = err e

  -- The bytes that are handed to the installer of the platform.
  unfoldable pub download_and_install_update :
      Platform → Option Text → Reply (List ℕ) → Result (List ℕ)
  download_and_install_update platform expected (no_reply e) = err e
  download_and_install_update platform expected (reply status body) =
      if not (is_success status)
      then err (codes "Download failed")
      else downloaded platform expected body

  module _ {V : Type 0} (semver : Text → Option V) (newer : V → V → Bool) where
    abbrev pub with_release : Agent → Result ReleaseInfo → Result (Option SelectedUpdate)
    with_release agent (err e) = err e
    with_release agent (ok release) =
        offered newer agent release (version_of semver agent.current_version)
          (version_of semver release.version)

    unfoldable pub check_for_updates : Agent → Reply ReleaseInfo → Result (Option SelectedUpdate)
    check_for_updates agent (no_reply e) = err e
    check_for_updates agent (reply status body) =
        if not (is_success status)
        then err (codes "Update check failed")
        else with_release agent body

-- Times are seconds of the system clock, which may run backwards.
unfoldable pub check_due : ℕ → ℕ → ℕ → Bool
check_due last now period = if leb last now then leb period (now - last) else true

-- one turn of the update loop: whether it checks, and the time of the last check then
abbrev pub turn : ℕ → Option ℕ → ℕ → Bool
turn period none now = true
turn period (some prev) now = check_due prev now period

-- The times of the checks that the loop makes, given those at which it wakes.
unfoldable pub update_loop : ℕ → Option ℕ → List ℕ → List ℕ
update_loop period last [] = []
update_loop period last (now ∷ rest) =
    let checked = now ∷ update_loop period (some now) rest in
    let skipped = update_loop period last rest in if turn period last now then checked else skipped
