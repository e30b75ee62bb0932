-- ===== src/Lifecycle.antt =====
-- src-tauri/src/lib.rs: the session from one process to the next: `adopt_token` stores a token,
-- `startup_blocking_work` takes it up again, `sign_out_with` deletes it, and `refresh_identity` names its
-- holder. What the person and the window are told is a list of events.
use klaayguard.Prelude.{
  ℕ, ◌++◌, is_some, Bool, true, false, List, [], ◌∷◌, Option, none, some, map, if◌then◌else◌,
}
use klaayguard.Text.{Text, codes, eq_text, Result, ok, err}
use klaayguard.Session.{AppState, clear_session, name_holder_of}
use klaayguard.Http.{Outcome}
use klaayguard.Credentials.{
  Keyring, Faults, State, CredentialStore, keyring, file, save_token, load, delete_token,
}
use klaayguard.Label.{Identity, accepted, rejected, unknown, fetch_identity, adopt_unless_rejected}
use klaayguard.Cycle
use klaayguard.Cycle.{Env, notify_signin_needed}
use klaayguard.Autostart
use klaayguard.Autostart.{Process, Files, install_autostart_entry}
use klaayguard.Autostart.RunKey.{Access, ensure_autostart_entry}
use klaayguard.Spawn.{notification_command}
pub mod Restart

pub data Event : Type 0 where
  signed_out : Event
  sign_out_incomplete : Text → Event  -- to the log and to Sentry
  notified : Event  -- the person is told, by the notification command of the platform
  auth_status : Bool → Event
  token_rejected : Event
  saved_to_file : Event
  save_failed : Text → Event
  token_saved : Event
  load_failed : Text → Event
  autostart_failed : Text → Event
  ask_name : Event  -- `refresh_identity` is spawned
  nudged : Cycle.Event → Event  -- what `notify_signin_needed` does

-- the state of a process that just began
unfoldable pub fresh : Text → AppState
fresh api_base = record {
  auth_token = none;
  api_base_url = api_base;
  last_attempt_at = none;
  last_focus_at = none;
  device_identity = none;
  user_label = none;
  token_acquired = false;
  tray_built = true;
  tray_watcher_present = true;
}

-- `refresh_identity`: the token is read when the request is sent, and the state when the answer is there.
module _ (is_format : ℕ → Bool) where
  abbrev name_for : Text → Identity → AppState → AppState
  name_for token (accepted label) s = name_holder_of (some token) label s
  name_for token rejected s = s
  name_for token unknown s = s

  abbrev named : Option Text → Outcome → AppState → AppState
  named none me s = s
  named (some token) me s = name_for token (fetch_identity is_format me) s

  unfoldable pub refresh_identity : Outcome → AppState → AppState → AppState
  unfolding name_holder_of
  refresh_identity me asking answered = named asking.auth_token me answered

abbrev pub notifies : Text → Bool
notifies os = is_some (notification_command os [] [])

module _ (k : Keyring) where
  pub record After : Type 0 where
    pub app : AppState
    pub store : State k
    pub events : List Event

  -- `notify_user` has no command on Windows
  abbrev told : Bool → List Event
  told true = notified ∷ []
  told false = []

  abbrev sign_out_events : Text → Result (Unit {0}) → List Event
  sign_out_events os (ok u) = signed_out ∷ []
  sign_out_events os (err e) = sign_out_incomplete e ∷ told (notifies os)

  abbrev pub cleared_out : Text → AppState → Result (Unit {0}) × State k → After
  cleared_out os s (r, st) = record {
    app = clear_session s;
    store = st;
    events = sign_out_events os r ++ (auth_status false ∷ []);
  }

  unfoldable pub sign_out_with :
      Text → (State k → Result (Unit {0}) × State k) → AppState → State k → After
  unfolding notification_command
  sign_out_with os delete_stored_token s st = cleared_out os s (delete_stored_token st)

  unfoldable pub sign_out : Text → Faults → AppState → State k → After
  unfolding sign_out_with
  sign_out os f = sign_out_with os (delete_token k f)

  abbrev save_events : Result CredentialStore → List Event
  save_events (ok keyring) = []
  save_events (ok file) = saved_to_file ∷ []
  save_events (err e) = save_failed e ∷ []

  abbrev stored : AppState → Result CredentialStore × State k → After
  stored s (r, st) = record {
    app = s;
    store = st;
    events = save_events r ++ (auth_status true ∷ token_saved ∷ []);
  }

  abbrev pub adopted : Faults → Text → State k → Bool × AppState → After
  adopted f tok st (false, s) = record {
    app = s;
    store = st;
    events = token_rejected ∷ auth_status false ∷ [];
  }
  adopted f tok st (true, s) = stored s (save_token k f tok st)

  unfoldable pub adopt_token : (ℕ → Bool) → Faults → Outcome → Text → AppState → State k → After
  adopt_token is_format f me tok s st = adopted f tok st (adopt_unless_rejected is_format me tok s)

  abbrev pub nudge : Env → AppState → AppState × List Event
  nudge e s = let (s', told) = notify_signin_needed e s in (s', map nudged told)

  -- the stored token becomes the session's, or the person is asked to sign in
  abbrev pub taken_up : Env → AppState → Result (Option Text) → AppState × List Event
  taken_up e s (ok (some tok)) =
      (record s { auth_token = some tok; token_acquired = true }, ask_name ∷ [])
  taken_up e s (ok none) = nudge e s
  taken_up e s (err m) = let (s', told) = nudge e s in (s', load_failed m ∷ told)

  abbrev autostart_event : Result (Unit {0}) → List Event
  autostart_event (ok u) = []
  autostart_event (err m) = autostart_failed m ∷ []

  -- the autostart entry of Linux, or the value of the Run key of Windows
  abbrev autostart :
      Env
      → Autostart.Faults
      → Process
      → Access
      → Files
      → Option Text
      → List Event × (Files × Option Text)
  autostart e af p a d value =
      if eq_text e.os (codes "linux")
      then (let (r, d') = install_autostart_entry af p d in (autostart_event r, (d', value)))
      else if eq_text e.os (codes "windows")
      then (let (r, value') = ensure_autostart_entry a value in (autostart_event r, (d, value')))
      else ([], (d, value))

  pub record Started : Type 0 where
    pub app : AppState
    pub files : Files
    pub run_value : Option Text
    pub events : List Event

  unfoldable pub startup_blocking_work :
      Faults
      → Autostart.Faults
      → Process
      → Access
      → Env
      → AppState
      → State k
      → Files
      → Option Text
      → Started
  unfolding eq_text
  startup_blocking_work f af p a e s st d value =
      let (first, (d', value')) = autostart e af p a d value in
      let (s', told) = taken_up e s (load k f st) in
      record { app = s'; files = d'; run_value = value'; events = first ++ told }
