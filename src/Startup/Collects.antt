-- ===== src/Startup/Collects.antt =====
-- src-tauri/src/main.rs and `run` in src-tauri/src/lib.rs: when a process that starts spawns the background loop.
use klaayguard.Prelude.{ℕ, Bool, true, false, not, ◌&&◌, List, any, if◌then◌else◌}
use klaayguard.Text.{Text, codes, is_text}
use klaayguard.Credentials.{Keyring}
use klaayguard.Credentials.Target.{is_production_target}
use klaayguard.Environment.{Env, get_api_base_url}
use klaayguard.Startup.{Course, exits, goes_on, has_option, claim_this_login}
use klaayguard.Startup.Main.{Action, background_loop, Launch, is_mac}

abbrev is_background_loop : Action → Bool
is_background_loop background_loop = true
is_background_loop _ = false

abbrev pub starts_loop : List Action → Bool
starts_loop = any is_background_loop

abbrev pub lets_go : Course → Bool
lets_go (exits n) = false
lets_go goes_on = true

abbrev pub marked : Env → Bool
marked env = is_text (env (codes "KLAAY_ARCH_MISMATCH")) (codes "1")

module _ (k : Keyring) (sha256 : Text → List ℕ) where
  -- What stands for "no other agent of this login": on macOS the claim of the login lets the process go on,
  -- which it also does where there is no place for a lock or one that cannot be judged; elsewhere the
  -- plugin, which only a build for production has, sees no other instance.
  abbrev pub unclaimed : Launch → Bool
  unclaimed l =
      if is_mac l
      then lets_go (claim_this_login l.lock_path l.attempts)
      else not
          (is_production_target sha256 (get_api_base_url l.env l.app_default) && l.already_runs)

  -- no option that does one thing and exits
  abbrev pub plain : Launch → Bool
  plain l =
      not (has_option (codes "--forget-credentials") l.args)
      && not (has_option (codes "--install-agent") l.args)
