-- ===== src/Disk.antt =====
-- src-tauri/src/lib.rs: the disk encryption rows of Linux, from the tree that `lsblk -J` prints and from
-- /proc/mounts. `serde_json` parses the tree, so its argument is the parsed value, if there is one.
use klaayguard.Prelude.{Bool, List, Option, none, some}
use klaayguard.Text.{Text}
pub mod Home
pub mod Lsblk
pub mod Mounts
pub mod Octal
pub mod Rows
pub mod Tree
pub mod Verdict
pub mod Visit

-- One block device, with what its ancestors say of it.
pub record FlatDev : Type 0 where
  pub mountpoints : List Text
  pub kind : Text
  pub on_crypt : Bool
  pub parent_fstype : Text

-- One line of /proc/mounts.
pub record MountEntry : Type 0 where
  pub mountpoint : Text
  pub fstype : Text
