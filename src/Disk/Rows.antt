-- ===== src/Disk/Rows.antt =====
-- src-tauri/src/lib.rs: `build_disk_encryption_rows` and `collect_disk_encryption`. What the commands and
-- files of the host give are arguments.
use klaayguard.Prelude.{
  Bool, ◌&&◌, List, [], ◌∷◌, ◌++◌, Option, none, some, any, map, filter, flat_map, filter_map, find,
  is_some, if◌then◌else◌, unwrap_or, map_some, leb,
}
use klaayguard.Text.{Text, codes, eq_text}
use klaayguard.Json.{Value, str, array, object}
use klaayguard.Text.Path.{path_starts_with}
use klaayguard.Device.{byte_len}
use klaayguard.ScreenLock.{Tri, affirmed, denied, unknown, tri_text}
use klaayguard.Disk.{FlatDev, MountEntry}
use klaayguard.Disk.Lsblk.{parse_lsblk, push_absent}
use klaayguard.Disk.Mounts.{parse_proc_mounts}

unfoldable pub encrypted_mount_mechanism : Text → Option Text
unfolding eq_text
encrypted_mount_mechanism fstype =
    if eq_text fstype (codes "ecryptfs") then some (codes "ecryptfs") else none

-- `max_by_key(len)`: the last of the longest
abbrev longer : Option Text → Text → Text
longer none x = x
longer (some best) x = if leb (byte_len best) (byte_len x) then x else best

abbrev pub longest : Option Text → List Text → Option Text
longest best [] = best
longest best (x ∷ xs) = longest (some (longer best x)) xs

abbrev pub mounted_at : Text → FlatDev → Bool
mounted_at target d = any (λ m. eq_text m target) d.mountpoints

abbrev pub is_encrypted_mount : MountEntry → Bool
is_encrypted_mount m = is_some (encrypted_mount_mechanism m.fstype)

abbrev pub device_verdict : Option FlatDev → Tri
device_verdict none = unknown
device_verdict (some d) = if d.on_crypt then affirmed else denied

module _ (devs : List FlatDev) (mounts : List MountEntry) where
  unfoldable pub determine : Text → Tri
  unfolding eq_text encrypted_mount_mechanism
  determine target =
      if any (λ (m : MountEntry). eq_text m.mountpoint target && is_encrypted_mount m) mounts
      then affirmed
      else if any
          (λ (m : MountEntry). eq_text m.mountpoint target && eq_text m.fstype (codes "zfs")) mounts
      then unknown
      else device_verdict (find (mounted_at target) devs)

  abbrev pub all_mountpoints : List Text
  all_mountpoints =
      map (λ (m : MountEntry). m.mountpoint) mounts
      ++ flat_map (λ (d : FlatDev). d.mountpoints) devs

  unfoldable pub mount_of : Text → Text
  unfolding path_starts_with byte_len
  mount_of path = unwrap_or (longest none (filter (path_starts_with path) all_mountpoints)) path

  abbrev pub root_encrypted : Tri
  root_encrypted = determine (codes "/")

  abbrev home_at : Text → Tri
  home_at mount = if eq_text mount (codes "/") then root_encrypted else determine mount

  unfoldable pub home_encrypted : Option Text → Tri
  unfolding determine mount_of eq_text
  home_encrypted none = unknown
  home_encrypted (some []) = unknown
  home_encrypted (some (c ∷ h)) = home_at (mount_of (c ∷ h))

abbrev luks_or_dm : Text → Text
luks_or_dm parent_fstype =
    if eq_text parent_fstype (codes "crypto_LUKS") then codes "luks" else codes "dm-crypt"

abbrev device_row : FlatDev → Value
device_row d = object (
    (codes "kind", str (codes "device"))
    ∷ (codes "mechanism", str (luks_or_dm d.parent_fstype))
    ∷ (codes "encrypted", str (codes "yes"))
    ∷ (codes "mountpoints", array (map str d.mountpoints))
    ∷ (codes "source", str (codes "lsblk"))
    ∷ (
      codes "detail",
      str (codes "dm-crypt mapper (parent fstype " ++ (d.parent_fstype ++ codes ")")),
    )
    ∷ [])

abbrev mount_row : Text → Text → Value
mount_row mountpoint mechanism = object (
    (codes "kind", str (codes "device"))
    ∷ (codes "mechanism", str mechanism)
    ∷ (codes "encrypted", str (codes "yes"))
    ∷ (codes "mountpoint", str mountpoint)
    ∷ (codes "source", str (codes "/proc/mounts"))
    ∷ (codes "detail", str (mechanism ++ codes " mount"))
    ∷ [])

abbrev pub is_mapper : FlatDev → Bool
is_mapper d = eq_text d.kind (codes "crypt")

-- the mechanism and the row of each piece of evidence, in the order of the rows
unfoldable pub evidence : List FlatDev → List MountEntry → List (Text × Value)
unfolding eq_text encrypted_mount_mechanism
evidence devs mounts =
    map (λ (d : FlatDev). (luks_or_dm d.parent_fstype, device_row d)) (filter is_mapper devs)
    ++ filter_map
        (λ (m : MountEntry).
          map_some (λ mechanism. (mechanism, mount_row m.mountpoint mechanism))
            (encrypted_mount_mechanism m.fstype))
        mounts

-- `mechanisms`, each once
abbrev pub push_mechanisms : List Text → List (Text × Value) → List Text
push_mechanisms out [] = out
push_mechanisms out ((mechanism, row) ∷ rest) = push_mechanisms (push_absent out mechanism) rest

unfoldable pub summary_row : Tri → Tri → List Text → Value
summary_row root home mechanisms = object (
    (codes "kind", str (codes "summary"))
    ∷ (codes "root_encrypted", str (tri_text root))
    ∷ (codes "home_encrypted", str (tri_text home))
    ∷ (codes "mechanisms", array (map str mechanisms))
    ∷ (codes "source", str (codes "aggregate"))
    ∷ [])

unfoldable pub build_disk_encryption_rows : Option Value → Text → Option Text → Value
unfolding parse_lsblk parse_proc_mounts evidence summary_row determine home_encrypted eq_text
build_disk_encryption_rows lsblk_json proc_mounts home =
    let devs = parse_lsblk lsblk_json in
    let mounts = parse_proc_mounts proc_mounts in
    let found = evidence devs mounts in
    array (
      map (λ (e : Text × Value). e.1) found
      ++ (summary_row (root_encrypted devs mounts) (home_encrypted devs mounts home)
            (push_mechanisms [] found)
          ∷ []))
