-- ===== src/Cycle.antt =====
-- src-tauri/src/lib.rs: one collection cycle. `run_cycle` fetches the configuration, runs the checks
-- and posts the rows; `invalidate_auth` and `notify_signin_needed` are what a refused token leads to.
-- The network, osquery, the native checks and the clock are given by `Env`, and what the window and
-- the browser are told is a list of events. A `HashMap` is an association list, in the order of its
-- first insertions; logging and breadcrumbs are left out.
use klaayguard.Prelude.{
  ℕ, ◌-◌, Bool, true, false, not, ◌&&◌, ◌||◌, List, [], ◌∷◌, ◌++◌, Option, none, some, leb,
  if◌then◌else◌, is_empty, length, map, filter_map, unwrap_or, is_some, is_none,
}
use klaayguard.Text.{Text, codes, eq_text, Result, ok, err}
use klaayguard.Json.{Value, obj, str, as_array, array, object, insert_field}
use klaayguard.Session.{AppState, clear_session}
use klaayguard.Config.{CollectionItem, osquery, builtin, parse_config_items}
use klaayguard.Http.{
  Response, Outcome, SendResult, response, failed, Sent, is_success, is_auth_failure,
  send_with_retry,
}
use klaayguard.Credentials.{Keyring, Faults, State}
use klaayguard.Device.{Host, Resolved, get_device_identity}
mod Batch
pub mod Keys
pub mod Auth
pub mod Payload
unfoldable pub use Batch.*

pub data Stage : Type 0 where
  config_stage osquery_stage post_stage : Stage

pub data Event : Type 0 where
  attempt : Event
  failed_at : Stage → Text → Event
  status_at : Stage → ℕ → Event
  no_tables : Event
  success : ℕ → Event
  invalidated : Event
  auth_status : Bool → Event
  login_page : Event  -- `open_sign_in` and the notification
  fallback_window : Event
  ask_name : Event  -- `refresh_identity` is spawned

unfoldable pub fallback_window_needed : Bool → Bool → Bool → Bool
fallback_window_needed tray_built watcher_present signed_in =
    not tray_built || (not watcher_present && not signed_in)

-- What a cycle meets.
pub record Env : Type 0 where
  pub os : Text
  pub now : ℕ  -- seconds of the monotonic clock
  pub focus_debounce_seconds : ℕ
  pub collected_at : Text
  pub config_answers : ℕ → Outcome
  pub post_answers : ℕ → Outcome
  pub native : Native
  pub osquery_run : Text → Run
  pub host : Host

module _ (e : Env) where
  abbrev pub debounced : AppState → Bool
  debounced s = elim s.last_focus_at [
    | some prev ↦ not (leb e.focus_debounce_seconds (e.now - prev))
    | none ↦ false
  ]

  abbrev window : AppState → List Event
  window s =
      if eq_text e.os (codes "linux")
        && fallback_window_needed s.tray_built s.tray_watcher_present false
      then fallback_window ∷ []
      else []

  unfoldable pub notify_signin_needed : AppState → AppState × List Event
  notify_signin_needed s =
      if is_some s.auth_token
      then (s, [])
      else if debounced s
      then (s, [])
      else (record s { last_focus_at = some e.now }, login_page ∷ window s)

  unfoldable pub invalidate_auth : AppState → AppState × List Event
  invalidate_auth s =
      let (s', told) = notify_signin_needed (clear_session s) in
      (s', told ++ (invalidated ∷ auth_status false ∷ []))

-- `name_unnamed_holder`: the request itself runs beside the cycle
unfoldable pub name_unnamed_holder : AppState → List Event
name_unnamed_holder s = if is_none s.user_label then ask_name ∷ [] else []

abbrev as_query : CollectionItem → Option (Text × Text)
as_query (osquery id sql) = some (id, sql)
as_query (builtin id check) = none

abbrev pub queries : List CollectionItem → List (Text × Text)
queries = filter_map as_query

abbrev pub native_results : (Text → Value) → List CollectionItem → Table → Table
native_results native [] t = t
native_results native (osquery id sql ∷ items) t = native_results native items t
native_results native (builtin id check ∷ items) t =
    native_results native items (insert id (native check) t)

-- the map of results, with the error of a batch that stopped
abbrev pub batch_results : Table → Result Table → Table × List Event
batch_results natives (ok rows) = (extend natives rows, [])
batch_results natives (err m) = (natives, failed_at osquery_stage m ∷ [])

unfoldable pub collect : (Text → Value) → (Text → Run) → List CollectionItem → Table × List Event
collect native run items =
    let natives = native_results native items [] in
    if is_empty (queries items)
    then (natives, [])
    else batch_results natives (execute_sql_batch run (queries items) [])

module _ (k : Keyring) (hmac : Text → List ℕ) (f : Faults) (e : Env) where
  -- A cycle's end: what it returns, the state, what it told the window, and the bearer token and
  -- body of what it posted.
  pub record Cycle : Type 0 where
    pub result : Result (Unit {0})
    pub app : AppState
    pub store : State k
    pub events : List Event
    pub posted : Option (Text × JsonApiPayload)

  abbrev pub ended : AppState → State k → List Event → Option (Text × JsonApiPayload) → Cycle
  ended app st events posted = record {
    result = ok tt;
    app = app;
    store = st;
    events = events;
    posted = posted;
  }

  abbrev pub refused :
      Stage → ℕ → AppState → State k → List Event → Option (Text × JsonApiPayload) → Cycle
  refused stage status app st events posted =
      let (app', told) = invalidate_auth e app in
      ended app' st (events ++ (told ++ (status_at stage status ∷ []))) posted

  abbrev pub after_post :
      ℕ → AppState → State k → List Event → (Text × JsonApiPayload) → SendResult → Cycle
  after_post rows app st events sent (failed m) =
      ended app st (events ++ (failed_at post_stage m ∷ [])) (some sent)
  after_post rows app st events sent (response r) =
      if is_auth_failure r.status
      then refused post_stage r.status app st events (some sent)
      else if is_success r.status
      then ended app st (events ++ (success rows ∷ [])) (some sent)
      else ended app st (events ++ (status_at post_stage r.status ∷ [])) (some sent)

  abbrev uuid : Result Text → Text
  uuid (ok id) = id
  uuid (err m) = codes "unknown"

  abbrev pub post : Text → AppState → State k → List Event → Text → List JsonApiResource → Cycle
  post token app st events id [] = ended app st (events ++ (success 0 ∷ [])) none
  post token app st events id (item ∷ items) =
      after_post (length (item ∷ items)) app st events
        (token, record { data_items = item ∷ items; device_uuid = id })
        (send_with_retry true (codes "post") e.post_answers).result

  abbrev pub with_results : Text → AppState → State k → List Event → Table → Cycle
  with_results token app st events results =
      let host = record e.host { system_info = lookup (codes "system_info") results } in
      let who = get_device_identity k hmac f app st host in
      post token who.app who.store events (uuid who.result)
        (build_payload_items e.collected_at results)

  abbrev pub with_items : Text → AppState → State k → List Event → List CollectionItem → Cycle
  with_items token app st events [] = ended app st (events ++ (no_tables ∷ [])) none
  with_items token app st events (item ∷ items) =
      let (results, told) =
        collect (run_builtin_check e.os e.native) e.osquery_run (item ∷ items) in
      with_results token app st (events ++ told) results

  abbrev pub with_config : Text → AppState → State k → List Event → Option Value → Cycle
  with_config token app st events none = record {
    result = err (codes "the reply is no JSON");
    app = app;
    store = st;
    events = events;
    posted = none;
  }
  with_config token app st events (some cfg) =
      with_items token app st events (parse_config_items cfg e.os)

  abbrev pub after_config : Text → AppState → State k → SendResult → Cycle
  after_config token app st (failed m) = ended app st (attempt ∷ failed_at config_stage m ∷ []) none
  after_config token app st (response r) =
      if is_auth_failure r.status
      then refused config_stage r.status app st (attempt ∷ []) none
      else if not (is_success r.status)
      then ended app st (attempt ∷ status_at config_stage r.status ∷ []) none
      else with_config token app st (attempt ∷ name_unnamed_holder app) r.json

  abbrev pub with_token : AppState → State k → Option Text → Cycle
  with_token app st none = ended app st [] none
  with_token app st (some token) =
      after_config token (record app { last_attempt_at = some e.now }) st
        (send_with_retry true (codes "config") e.config_answers).result

  unfoldable pub run_cycle : AppState → State k → Cycle
  run_cycle app st = with_token app st app.auth_token
