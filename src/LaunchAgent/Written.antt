-- ===== src/LaunchAgent/Written.antt =====
-- src-tauri/src/lib.rs: who writes the LaunchAgent, and what.
use klaayguard.Prelude.{◌≡◌, true, false, some}
use klaayguard.Text.{Text, Result, err}
use klaayguard.LaunchAgent.{Mac, Plist, may_write_launch_agent, app_bundle_path, plist_content}

-- The file is as it was, or the installed app wrote it, with the API base of its build; where the write failed, it is
-- what that has left.
pub data Owned (m : Mac) (file : Plist) : Result Text × Plist → Type 0 where
  as_before : {r : Result Text} → Owned m file (r, file)
  wrote :
      {r : Result Text} {home exe : Text}
      → m.home ≡ some home
      → m.current_exe ≡ some exe
      → may_write_launch_agent exe app_bundle_path m.installed_exists ≡ true
      → Owned m file (r, some (plist_content m home))
  cut :
      {e : Text} {home exe : Text}
      → m.home ≡ some home
      → m.current_exe ≡ some exe
      → may_write_launch_agent exe app_bundle_path m.installed_exists ≡ true
      → m.write_open ≡ false
      → m.write ≡ true
      → Owned m file (err e, some m.partial)
