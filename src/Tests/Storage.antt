-- ===== src/Tests/Storage.antt =====
-- Runs of the disk encryption rows of Linux.
use klaayguard.Prelude.{ℕ, ◌≡◌, refl, ◌++◌, Bool, ◌||◌, List, [], ◌∷◌, Option, some, arith, ◌==◌}
use klaayguard.Text.{Text, codes}
use klaayguard.Json.{Value, str, array, object}
use klaayguard.ScreenLock.{Tri}
use klaayguard.Disk.Mounts.{parse_proc_mounts, unescape}
use klaayguard.Disk.Rows.{build_disk_encryption_rows, summary_row}
use klaayguard.Disk.Verdict.{Evidence}
use klaayguard.Disk.Home.{HomeEvidence, build_disk_encryption_rows-Evidence}
use klaayguard.Disk.Octal.{escape, unescape-escape}

-- a mapper that holds `/` and `/home`, in a partition of a disk
abbrev mapper : Value
mapper = object (
    (codes "type", str (codes "crypt"))
    ∷ (codes "fstype", str (codes "btrfs"))
    ∷ (codes "mountpoints", array (str (codes "/") ∷ str (codes "/home") ∷ []))
    ∷ [])

abbrev partition : Value
partition = object (
    (codes "type", str (codes "part"))
    ∷ (codes "fstype", str (codes "crypto_LUKS"))
    ∷ (codes "children", array (mapper ∷ []))
    ∷ [])

abbrev lsblk : Value
lsblk = object ((codes "blockdevices", array (partition ∷ [])) ∷ [])

abbrev mount_lines : Text
mount_lines =
    codes
      "/dev/dm-0 / btrfs rw 0 0\n/dev/dm-0 /home btrfs rw 0 0\ntmpfs /mnt/a\\040b tmpfs rw 0 0\n"

abbrev ann : Option Text
ann = some (codes "/home/ann")

build_disk_encryption_rows-Evidence_example :
    (found : List Value) × (root at_home : Tri) × (mechanisms : List Text)
    × (build_disk_encryption_rows (some lsblk) mount_lines ann
        ≡ array (found ++ (summary_row root at_home mechanisms ∷ [])))
    × Evidence lsblk (parse_proc_mounts mount_lines) (codes "/") root
    × HomeEvidence lsblk (parse_proc_mounts mount_lines) ann at_home
build_disk_encryption_rows-Evidence_example =
    build_disk_encryption_rows-Evidence lsblk mount_lines ann

-- what the kernel escapes: blank, tab, line feed, and backslash
abbrev kernel_escapes : ℕ → Bool
kernel_escapes c = c == b' ' || (c == b'\t' || (c == b'\n' || c == b'\\'))

unescape-escape_example :
    unescape (escape kernel_escapes (codes "/mnt/Büro 1")) ≡ codes "/mnt/Büro 1"
unescape-escape_example =
    unescape-escape kernel_escapes (codes "/mnt/Büro 1")
      (record { backslash = refl; ascii = λ c h. ground arith }) refl
