-- ===== src/Tests/Updates.antt =====
-- Runs of the self update.
use klaayguard.Prelude.{ℕ, refl, inl, inr, Bool, true, false, List, [], ◌∷◌, none, some, ltb, arith}
use klaayguard.Text.{codes, ok, parse_u64}
use klaayguard.Update.{ReleaseInfo, Reply, reply, update_loop}
use klaayguard.Installer.{Content}
use klaayguard.Installer.AppImage
use klaayguard.Installer.Nsis
use klaayguard.Installer.Bundle
use klaayguard.Installer.Bundle.{Signature, Apps, copied}
use klaayguard.Installer.DiskImage.{printed}
use klaayguard.Installer.Trusted.{
  LinuxUpdated, linux_update-LinuxUpdated, WindowsUpdated, windows_update-WindowsUpdated,
}
use klaayguard.Installer.Signed.{SignedUpdate, mac_update-SignedUpdate}
use klaayguard.Installer.Whole.{
  MacHost, linux_agent, linux_update, windows_agent, windows_update, mac_update,
}
use klaayguard.Tests.Desktop.{packaged}
use klaayguard.Update.Schedule.{Covered, update_loop-Covered}

-- a hash of one byte, and versions of one number
abbrev digest : List ℕ → List ℕ
digest bytes = 0xab ∷ []

abbrev above : ℕ → ℕ → Bool
above a b = ltb b a

abbrev release : ReleaseInfo
release = record {
  version = codes "v8";
  assets =
      record {
        id = 4;
        name = codes "Linux";
        original_name = some (codes "KlaayGuard_8_Linux_x86_64.AppImage");
        sha256 = some (codes "sha256:AB");
      }
      ∷ record {
        id = 5;
        name = codes "Windows";
        original_name = some (codes "KlaayGuard_8_Windows_x64.exe");
        sha256 = some (codes "AB");
      }
      ∷ record {
        id = 6;
        name = codes "Apple silicon";
        original_name = some (codes "KlaayGuard_8_macOS_arm64.dmg");
        sha256 = none;
      }
      ∷ [];
}

abbrev download : ℕ → Reply (List ℕ)
download n = reply 200 (ok (n ∷ 1 ∷ []))

-- every step works
abbrev smooth : AppImage.Faults
smooth = record {
  create = false;
  remove = false;
  recreate = false;
  write = false;
  partial = [];
  sync = false;
  chmod = false;
  rename = false;
  spawn = false;
}

abbrev left_over : AppImage.Files
left_over = record { target = 7 ∷ []; staged = some (0 ∷ []) }

abbrev latest : Reply ReleaseInfo
latest = reply 200 (ok release)

linux_update-LinuxUpdated_example :
    LinuxUpdated digest parse_u64 above latest download
      (linux_agent packaged (codes "x86_64") (codes "v7"))
      (7 ∷ [])
      (linux_update digest parse_u64 above latest download smooth packaged left_over
        (codes "x86_64")
        (codes "v7"))
linux_update-LinuxUpdated_example =
    linux_update-LinuxUpdated digest parse_u64 above latest download smooth packaged left_over
      (codes "x86_64") (codes "v7")

-- the staged installer is changed on the disk before it is read back
abbrev changed : Nsis.Faults
changed = record {
  no_data_dir = false;
  create_dir = false;
  create = false;
  write = false;
  sync = false;
  on_disk = some (9 ∷ []);
  spawn = false;
  spawn_without_breakaway = false;
}

windows_update-WindowsUpdated_example :
    WindowsUpdated digest parse_u64 above latest download
      (windows_agent (codes "x86_64") (codes "v7"))
      (windows_update digest parse_u64 above latest download changed (codes "x86_64") (codes "v7"))
windows_update-WindowsUpdated_example =
    windows_update-WindowsUpdated digest parse_u64 above latest download changed (codes "x86_64")
      (codes "v7")

abbrev signed_by_klaay : Content → Signature
signed_by_klaay b = record {
  verify = some true;
  details = some (codes "Identifier=com.klaay.app\nTeamIdentifier=8QK45RW8QK\n");
  assess = some true;
}

-- neither the swap nor the roll back works
abbrev stuck : Content → Bundle.Faults
stuck bytes = record {
  clear_staged = false;
  clear_backup = false;
  ditto = copied (8 ∷ bytes);
  aside = false;
  swap = true;
  back = true;
  drop_backup = false;
  drop_staged = false;
}

abbrev one_app : Apps
one_app = record { target = some (7 ∷ []); staged = none; backup = none }

abbrev mac : MacHost
mac = record {
  current_exe = some (codes "/Applications/KlaayGuard.app/Contents/MacOS/klaayguard");
  installed_exists = true;
  writable = true;
  create = false;
  write = false;
  attach = λ bytes. printed (codes "/dev/disk4\t/Volumes/KlaayGuard\n");
  source_exists = true;
  under_launchd = true;
}

mac_update-SignedUpdate_example :
    SignedUpdate digest parse_u64 above latest download signed_by_klaay stuck mac one_app
      (7 ∷ [])
      refl
      (codes "aarch64")
      (codes "v7")
      (mac_update digest parse_u64 above latest download signed_by_klaay stuck mac one_app
        (codes "aarch64")
        (codes "v7"))
mac_update-SignedUpdate_example =
    mac_update-SignedUpdate digest parse_u64 above latest download signed_by_klaay stuck mac one_app
      (7 ∷ []) refl (codes "aarch64") (codes "v7")

-- the loop wakes every five minutes, and the host sleeps for a day
abbrev wakes : List ℕ
wakes = 0 ∷ 300 ∷ 21600 ∷ 108000 ∷ []

update_loop-Covered_example : Covered 21600 none (update_loop 21600 none wakes) 300
update_loop-Covered_example =
    update_loop-Covered 21600 none wakes 300 (omega arith) (inr (inl refl))
