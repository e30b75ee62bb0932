-- ===== src/Startup/Main.antt =====
-- src-tauri/src/main.rs and `run` in src-tauri/src/lib.rs: the start of the process, as the list of what it does
-- that outlasts it, in order. What the host answers, whether the tray can be built, and what the plugin for a
-- single instance sees are given by `Launch`.
use klaayguard.Prelude.{
  ℕ, Bool, true, false, ◌&&◌, ◌||◌, List, [], ◌∷◌, ◌++◌, Option, none, some, if◌then◌else◌,
  and_then, map_some, map,
}
use klaayguard.Text.{Text, codes, eq_text, is_text, one_of, trim, lower}
use klaayguard.Text.Utf8.{from_utf8_lossy}
use klaayguard.Credentials.{Keyring, Faults, State}
use klaayguard.Credentials.Target.{is_production_target}
use klaayguard.Cycle.{fallback_window_needed}
use klaayguard.Environment.{Env, get_api_base_url}
use klaayguard.Instance.{Attempt}
use klaayguard.LaunchAgent.{Mac, Plist}
use klaayguard.Startup.{Course, exits, goes_on, Updates, run_options, claim_this_login}

pub data Action : Type 0 where
  exit : ℕ → Action
  arch_error : Text → Text → Action  -- of the build and the hardware, to the log and to Sentry
  arch_dialog : Action
  tray : Action
  fallback_window : Action
  update_loop : Action
  tray_clock : Action
  background_loop : Action
  install_agent : Action
  blocking_work : Action
  setup_failed : Action  -- the closure returns an error, with which `build` or `run` panics

pub record Launch : Type 0 where
  pub os : Text
  pub arch : Text  -- `std::env::consts::ARCH`
  pub args : List Text
  pub env : Env
  pub app_default : Option Text  -- the API base that the build fixes
  pub sysctl : Option (List ℕ)  -- what it prints, where it can be started
  pub uname : Option (List ℕ)
  pub lock_path : Option Text
  pub attempts : ℕ → Attempt
  pub already_runs : Bool  -- for the plugin
  pub menu_builds : Bool  -- each item of the menu, and the menu
  pub tray_builds : Bool
  pub updates : Updates
  pub watcher : Bool

abbrev pub is_mac : Launch → Bool
is_mac l = eq_text l.os (codes "macos")

abbrev says : Text → Text → Text → Bool
says s number word = eq_text s number || eq_text (map lower s) word

abbrev pub of_sysctl : Text → Option Bool
of_sysctl s =
    if says s (codes "1") (codes "true")
    then some true
    else if says s (codes "0") (codes "false")
    then some false
    else none

abbrev pub of_uname : Text → Bool
of_uname m = eq_text m (codes "arm64") || eq_text m (codes "aarch64")

abbrev or_uname : Option (List ℕ) → Option Bool → Option Bool
or_uname uname (some b) = some b
or_uname uname none = map_some (λ out. of_uname (trim (from_utf8_lossy out))) uname

-- whether the hardware is that of Apple, where `sysctl` or else `uname` tells
unfoldable pub is_apple_silicon_hw : Launch → Option Bool
unfolding eq_text lower klaayguard.Text.trim_start_by klaayguard.Text.trim_end_by
is_apple_silicon_hw l =
    or_uname l.uname (and_then l.sysctl (λ out. of_sysctl (trim (from_utf8_lossy out))))

abbrev pub mismatch : Text → Option Bool → Bool
mismatch arch none = false
mismatch arch (some true) = eq_text arch (codes "x86_64")
mismatch arch (some false) = eq_text arch (codes "aarch64") || eq_text arch (codes "arm")

abbrev pub human_built : Text → Text
human_built arch = if eq_text arch (codes "aarch64") then codes "arm64" else arch

abbrev pub human_hw : Option Bool → Text
human_hw (some true) = codes "arm64 (Apple Silicon)"
human_hw _ = codes "x86_64 (Intel)"

abbrev set_var : Text → Text → Env → Env
set_var name value env n = if eq_text n name then some value else env n

-- the check of `main`, which leaves its result in the environment
abbrev pub arch_mismatch : Launch → Bool
arch_mismatch l = is_mac l && mismatch l.arch (is_apple_silicon_hw l)

abbrev pub with_arch : Launch → Env
with_arch l = set_var (codes "KLAAY_ARCH_MISMATCH") (codes "1") (
    set_var (codes "KLAAY_ARCH_BUILT") (human_built l.arch)
      (set_var (codes "KLAAY_ARCH_HOST") (human_hw (is_apple_silicon_hw l)) l.env))

abbrev pub arch_env : Launch → Env
arch_env l = if arch_mismatch l then with_arch l else l.env

abbrev pub when : Bool → Action → List Action
when b a = if b then a ∷ [] else []

abbrev pub window : Launch → Bool
window l = eq_text l.os (codes "linux") && fallback_window_needed l.tray_builds l.watcher true

abbrev pub started : Launch → List Action
started l =
    when l.tray_builds tray
    ++ (when (window l) fallback_window
        ++ (update_loop ∷ tray_clock ∷ background_loop ∷ when (is_mac l) install_agent
            ++ (blocking_work ∷ [])))

-- the closure of `setup`
unfoldable pub setup : Launch → Env → List Action
unfolding eq_text fallback_window_needed
setup l env =
    if is_text (env (codes "KLAAY_ARCH_MISMATCH")) (codes "1")
    then when (is_mac l) arch_dialog
    else if l.menu_builds
    then started l
    else setup_failed ∷ []

module _ (k : Keyring) (sha256 : Text → List ℕ) where
  -- the claim of the login, or the plugin in its place
  abbrev pub claimed : Launch → Env → Course
  claimed l env =
      if is_mac l
      then claim_this_login l.lock_path l.attempts
      else if is_production_target sha256 (get_api_base_url env l.app_default) && l.already_runs
      then exits 0
      else goes_on

  abbrev pub after : Course → List Action → List Action
  after (exits n) rest = exit n ∷ []
  after goes_on rest = rest

  unfoldable pub run : Launch → Env → Faults → Mac → State k → Plist → List Action
  unfolding run_options claim_this_login is_production_target get_api_base_url setup
  run l env f m st p =
      after (run_options k l.os f l.updates m l.args st p).course
        (after (claimed l env) (setup l env))

  unfoldable pub main : Launch → Faults → Mac → State k → Plist → List Action
  unfolding run is_apple_silicon_hw
  main l f m st p =
      when (arch_mismatch l) (arch_error (human_built l.arch) (human_hw (is_apple_silicon_hw l)))
      ++ run l (arch_env l) f m st p
