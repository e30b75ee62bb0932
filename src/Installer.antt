-- ===== src/Installer.antt =====
-- src-tauri/src/lib.rs: the installation of an update on each platform. A file or a bundle is its content;
-- the steps of the file system and the commands that fail are given by `Faults`, one record for each platform.
-- An error is its fixed text. The scripts that start the new process are I/O: what is kept of them is whether
-- the process left for the new one.
use klaayguard.Prelude.{Bool, List, ℕ, Option, none, some, if◌then◌else◌}
use klaayguard.Text.{Text}
pub mod AppImage
pub mod Bundle
pub mod DiskImage
pub mod Nsis
pub mod Signed
pub mod Trusted
pub mod Whole
pub mod Kept

abbrev pub Content : Type 0
Content = List ℕ

-- `remove_file` or `remove_dir_all`, its result ignored
abbrev pub dropped : Bool → Option Content → Option Content
dropped fails slot = if fails then slot else none
