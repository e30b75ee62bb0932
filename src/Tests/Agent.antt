-- ===== src/Tests/Agent.antt =====
-- A run of the LaunchAgent of macOS.
use klaayguard.Prelude.{true, false, none, some, []}
use klaayguard.Text.{codes}
use klaayguard.LaunchAgent.{Mac}

-- the installed app at its first start
abbrev pub mac : Mac
mac = record {
  home = some (codes "/Users/ann");
  current_exe = some (codes "/Applications/KlaayGuard.app/Contents/MacOS/klaayguard");
  installed_exists = true;
  app_default = none;
  template = codes "<string>__LABEL__</string><string>__APP_PATH__</string>";
  create_dir = false;
  create_log_dir = false;
  write_open = false;
  write = false;
  partial = [];
  print = none;
  bootstrap = some true;
  already = false;
}
