-- ===== src/Disk/Verdict.antt =====
-- src-tauri/src/lib.rs: what the disk encryption verdicts of Linux rest on.
use klaayguard.Prelude.{
  is_some, ◌↔◌, ◌≡◌, refl, sym, Bool, true, false, ◌&&◌, List, ◌∷◌, Option, none, some, In, inl,
  inr, ◌⊎◌, any_of, none_of, find_of, find-none, arith, ap, any, find, subst, if◌then◌else◌,
}
use klaayguard.Text.{Text, codes, eq_text}
use klaayguard.Text.Laws.{eq_text_iff, eq_text_refl}
use klaayguard.Json.{Value}
use klaayguard.ScreenLock.{Tri, affirmed, denied, unknown}
use klaayguard.Disk.{FlatDev, MountEntry}
use klaayguard.Disk.Lsblk.{parse_lsblk, mountpoints_of}
use klaayguard.Disk.Rows.{encrypted_mount_mechanism, mounted_at, determine, device_verdict}
use klaayguard.Disk.Visit.{Node, crypt_above, seen, Visited, parse_lsblk-Visited}

has_text : (t : Text) (ts : List Text) → any (λ m. eq_text m t) ts ≡ true → In t ts
has_text t ts h = let (m, i, e) = any_of _ ts h in subst (λ x. In x ts) ((eq_text_iff m t).0 e) i

lacks_text : (t : Text) (ts : List Text) → any (λ m. eq_text m t) ts ≡ false → In t ts → ⊥
lacks_text t ts h i = absurd (cc (none_of (λ m. eq_text m t) ts h t i, eq_text_refl t))

module _ (mounts : List MountEntry) where
  -- a file system of the type is mounted there
  abbrev pub HasMount : Text → Text → Type 0
  HasMount fstype target =
      (m : MountEntry) × In m mounts × (m.mountpoint ≡ target) × (m.fstype ≡ fstype)

  module _ (kind : Text → Bool) (fstype target : Text)
      (only : (t : Text) → (kind t ≡ true) ↔ (t ≡ fstype)) where
    abbrev mount_is : MountEntry → Bool
    mount_is m = eq_text m.mountpoint target && kind m.fstype

    any-HasMount : any mount_is mounts ≡ true → HasMount fstype target
    any-HasMount h =
        let (m, i, e) = any_of mount_is mounts h in
        (m, i, (eq_text_iff m.mountpoint target).0 (ground arith), (only m.fstype).0 (ground arith))

    none-HasMount : any mount_is mounts ≡ false → HasMount fstype target → ⊥
    none-HasMount h (m, i, e, q) = ground (
      arith,
      none_of mount_is mounts h m i,
      (eq_text_iff m.mountpoint target).1 e,
      (only m.fstype).1 q,
    )

is_ecryptfs : (t : Text) → (is_some (encrypted_mount_mechanism t) ≡ true) ↔ (t ≡ codes "ecryptfs")
unfolding encrypted_mount_mechanism
is_ecryptfs t = ground (arith, eq_text_iff t (codes "ecryptfs"))

module _ (parsed : Value) (mounts : List MountEntry) (target : Text) where
  -- A node of the tree is mounted there, and it or an ancestor is a dm-crypt mapper, or none is.
  abbrev pub MountedNode : Bool → Type 0
  MountedNode crypt =
      (node : Value) × (above : List Value) × Node parsed node above
      × In target (mountpoints_of node)
      × (crypt_above (node ∷ above) ≡ crypt)

  -- no node of the tree is mounted there
  abbrev pub NotMounted : Type 0
  NotMounted =
      (node : Value) (above : List Value)
      → Node parsed node above
      → In target (mountpoints_of node)
      → ⊥

  abbrev pub Evidence : Tri → Type 0
  Evidence affirmed = HasMount mounts (codes "ecryptfs") target ⊎ MountedNode true
  Evidence denied =
      (HasMount mounts (codes "ecryptfs") target → ⊥)
      × (HasMount mounts (codes "zfs") target → ⊥)
      × MountedNode false
  Evidence unknown =
      (HasMount mounts (codes "ecryptfs") target → ⊥)
      × (HasMount mounts (codes "zfs") target ⊎ NotMounted)

  device-Mounted :
      (d : FlatDev) → Visited parsed d → mounted_at target d ≡ true → MountedNode d.on_crypt
  device-Mounted d (node, above, v, e) h = (
    node,
    above,
    v,
    has_text target (mountpoints_of node) (subst (λ (x : FlatDev). mounted_at target x ≡ true) e h),
    ap (λ (x : FlatDev). x.on_crypt) (sym e),
  )

  no_device-NotMounted : any (mounted_at target) (parse_lsblk (some parsed)) ≡ false → NotMounted
  no_device-NotMounted h node above v i =
      lacks_text target (mountpoints_of node)
        (none_of (mounted_at target) (parse_lsblk (some parsed)) h (seen node above)
          ((parse_lsblk-Visited parsed (seen node above)).1 (node, above, v, refl)))
        i

  device_verdict-Evidence :
      (o : Option FlatDev)
      → find (mounted_at target) (parse_lsblk (some parsed)) ≡ o
      → (HasMount mounts (codes "ecryptfs") target → ⊥)
      → (HasMount mounts (codes "zfs") target → ⊥)
      → Evidence (device_verdict o)
  device_verdict-Evidence none h n z =
      (n, inr (no_device-NotMounted (find-none (mounted_at target) (parse_lsblk (some parsed)) h)))
  device_verdict-Evidence (some d) h n z =
      let (i, m) = find_of (mounted_at target) (parse_lsblk (some parsed)) d h in
      verdict_of d.on_crypt (device-Mounted d ((parse_lsblk-Visited parsed d).0 i) m)
    where
      verdict_of : (b : Bool) → MountedNode b → Evidence (if b then affirmed else denied)
      verdict_of true m = inr m
      verdict_of false m = (n, z, m)

  abbrev encrypted_kind : Text → Bool
  encrypted_kind t = is_some (encrypted_mount_mechanism t)

  abbrev zfs_kind : Text → Bool
  zfs_kind t = eq_text t (codes "zfs")

  pub determine-Evidence : Evidence (determine (parse_lsblk (some parsed)) mounts target)
  unfolding determine
  determine-Evidence =
      by_tests (any (mount_is mounts encrypted_kind (codes "ecryptfs") target is_ecryptfs) mounts)
        (any (mount_is mounts zfs_kind (codes "zfs") target (λ t. eq_text_iff t (codes "zfs")))
          mounts)
        refl refl
    where
      by_tests :
          (e z : Bool)
          → any (mount_is mounts encrypted_kind (codes "ecryptfs") target is_ecryptfs) mounts ≡ e
          → any
              (mount_is mounts zfs_kind (codes "zfs") target (λ t. eq_text_iff t (codes "zfs")))
              mounts
            ≡ z
          → Evidence (
              if e
              then affirmed
              else if z
              then unknown
              else device_verdict (find (mounted_at target) (parse_lsblk (some parsed))))
      by_tests true z e q =
          inl (any-HasMount mounts encrypted_kind (codes "ecryptfs") target is_ecryptfs e)
      by_tests false true e q = (
        none-HasMount mounts encrypted_kind (codes "ecryptfs") target is_ecryptfs e,
        inl (
            any-HasMount mounts zfs_kind (codes "zfs") target (λ t. eq_text_iff t (codes "zfs")) q),
      )
      by_tests false false e q =
          device_verdict-Evidence _ refl
            (none-HasMount mounts encrypted_kind (codes "ecryptfs") target is_ecryptfs e)
            (none-HasMount mounts zfs_kind (codes "zfs") target (λ t. eq_text_iff t (codes "zfs"))
              q)
