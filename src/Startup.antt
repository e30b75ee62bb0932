-- ===== src/Startup.antt =====
-- src-tauri/src/lib.rs: how `run` begins: the two options of the command line that do one thing and exit, the
-- claim of the login on macOS, and the warning that nothing serves the autostart entry on Linux.
use klaayguard.Prelude.{
  ℕ, Bool, true, false, not, ◌&&◌, ◌||◌, List, [], ◌∷◌, Option, none, some, any, if◌then◌else◌,
  keep_if, map_some,
}
use klaayguard.Text.{Text, codes, eq_text, is_text, contains, trim, Result, ok, err}
use klaayguard.Credentials.{Keyring, Faults, State, delete_token}
use klaayguard.LaunchAgent.{Mac, Plist, install_launch_agent}
use klaayguard.Instance.{Attempt, Claim, held_lock, taken, unavailable, claim_agent_lock}
use klaayguard.ScreenLock.Parse.{
  Desktop, gnome, kde, hyprland, cinnamon, mate, xfce, other, detect_desktop,
}
use klaayguard.Environment.{Env, get_api_base_url, get_frontend_url}
pub mod Collects
pub mod Forget
pub mod Main

-- The process exits with a status, or goes on.
pub data Course : Type 0 where
  exits : ℕ → Course
  goes_on : Course

abbrev pub status : {A : Type 0} → Result A → ℕ
status (ok a) = 0
status (err e) = 1

abbrev pub has_option : Text → List Text → Bool
has_option name = any (λ a. eq_text a name)

-- The directory in which Windows stages an installer: whether it is there, whether there is a local data
-- directory to look in, and whether `remove_dir_all`, whose result is ignored, removes it.
pub record Updates : Type 0 where
  pub staged : Bool
  pub has_local : Bool
  pub removes : Bool

abbrev pub swept : Text → Updates → Bool
swept os u = u.staged && not (eq_text os (codes "windows") && (u.has_local && u.removes))

module _ (k : Keyring) where
  -- `staged`: the directory of the staged installer is there
  pub record Begun : Type 0 where
    pub course : Course
    pub store : State k
    pub plist : Plist
    pub staged : Bool

  abbrev pub forgotten : Plist → Bool → Result (Unit {0}) × State k → Begun
  forgotten p d (r, st) = record { course = exits (status r); store = st; plist = p; staged = d }

  abbrev pub agent_installed : State k → Bool → Result Text × Plist → Begun
  agent_installed st d (r, p) = record {
    course = exits (status r);
    store = st;
    plist = p;
    staged = d;
  }

  -- the options, in the order in which they are looked for
  unfoldable pub run_options : Text → Faults → Updates → Mac → List Text → State k → Plist → Begun
  unfolding eq_text delete_token install_launch_agent
  run_options os f u m args st p =
      if has_option (codes "--forget-credentials") args
      then forgotten p (swept os u) (delete_token k f st)
      else if has_option (codes "--install-agent") args
      then (if eq_text os (codes "macos")
          then agent_installed st u.staged (install_launch_agent m p)
          else record { course = exits 1; store = st; plist = p; staged = u.staged })
      else record { course = goes_on; store = st; plist = p; staged = u.staged }

abbrev pub claimed : Claim → Course
claimed held_lock = goes_on
claimed taken = exits 0
claimed (unavailable why) = goes_on

-- Without a place for the lock, or with one that cannot be judged, the agent runs unguarded.
unfoldable pub claim_this_login : Option Text → (ℕ → Attempt) → Course
unfolding claim_agent_lock
claim_this_login none tries = goes_on
claim_this_login (some path) tries = claimed (claim_agent_lock tries 5)

abbrev is_local : Text → Bool
is_local url = contains url (codes "localhost") || contains url (codes "127.0.0.1")

abbrev xor : Bool → Bool → Bool
xor true b = not b
xor false b = b

-- the breadcrumb "endpoint_mismatch_local_vs_remote"
unfoldable pub endpoints_mismatch : Env → Option Text → Option Text → Bool
unfolding contains get_api_base_url get_frontend_url
endpoints_mismatch env api_default frontend_default =
    xor (is_local (get_api_base_url env api_default))
      (is_local (get_frontend_url env frontend_default))

abbrev runs_entries : Desktop → Bool
runs_entries hyprland = false
runs_entries other = false
runs_entries _ = true

-- whether it warns, from the desktop and the output of `systemctl --user is-active`
unfoldable pub warn_if_autostart_unserved : Option Text → Option Text → Bool
unfolding detect_desktop eq_text klaayguard.Text.trim_end_by klaayguard.Text.trim_start_by
warn_if_autostart_unserved xdg_current_desktop is_active =
    not (runs_entries (detect_desktop xdg_current_desktop))
    && not (is_text (map_some (λ out. trim out) is_active) (codes "active"))
