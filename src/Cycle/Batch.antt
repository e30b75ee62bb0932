-- ===== src/Cycle/Batch.antt =====
-- src-tauri/src/lib.rs: the map of results, the native checks, `execute_sql_batch`, and the payload.
use klaayguard.Prelude.{
  Bool, true, false, List, [], ◌∷◌, ◌++◌, Option, none, some, if◌then◌else◌, map,
}
use klaayguard.Text.{Text, codes, eq_text, Result, ok, err}
use klaayguard.Json.{Value, obj, str, as_array, array, insert_field}

abbrev pub Table : Type 0
Table = List (Text × Value)

-- `HashMap::insert`
unfoldable pub insert : Text → Value → Table → Table
insert k v [] = (k, v) ∷ []
insert k v ((j, w) ∷ r) =
    let rest = insert k v r in if eq_text j k then (k, v) ∷ r else (j, w) ∷ rest

-- `HashMap::extend`
unfoldable pub extend : Table → Table → Table
extend t [] = t
extend t ((k, v) ∷ r) = extend (insert k v t) r

-- `HashMap::get`
unfoldable pub lookup : Text → Table → Option Value
lookup k [] = none
lookup k ((j, v) ∷ r) = let rest = lookup k r in if eq_text j k then some v else rest

-- What the native collectors of this host answer.
pub record Native : Type 0 where
  pub disk_encryption : Value
  pub screenlock : Value
  pub auto_update : Value
  pub password_policy : Value

-- the collectors that are compiled in depend on the target
unfoldable pub run_builtin_check : Text → Native → Text → Value
run_builtin_check os n check =
    if eq_text os (codes "linux")
    then if eq_text check (codes "disk_encryption")
      then n.disk_encryption
      else if eq_text check (codes "screenlock")
      then n.screenlock
      else if eq_text check (codes "auto_update")
      then n.auto_update
      else array []
    else if eq_text os (codes "windows")
    then if eq_text check (codes "screenlock")
      then n.screenlock
      else if eq_text check (codes "disk_encryption")
      then n.disk_encryption
      else if eq_text check (codes "password_policy")
      then n.password_policy
      else array []
    else array []

-- One run of the osquery sidecar: it cannot be started, or exits, with success or not, with what
-- parsing its output gives.
pub data Run : Type 0 where
  not_started : Text → Run
  exited : Bool → Option Value → Run

-- the rows of one query; a query that fails has none
abbrev pub rows_of : Bool → Option Value → Value
rows_of false parsed = array []
rows_of true none = array []
rows_of true (some v) = v

unfoldable pub execute_sql_batch : (Text → Run) → List (Text × Text) → Table → Result Table
execute_sql_batch run [] all_results = ok all_results
execute_sql_batch run ((id, sql) ∷ queries) all_results = elim (run sql) [
  | not_started e ↦ err e
  | exited success parsed ↦
      execute_sql_batch run queries (insert id (rows_of success parsed) all_results)
]

pub record JsonApiResource : Type 0 where
  pub kind : Text  -- its JSON name is `type`
  pub attributes : Value

pub record JsonApiPayload : Type 0 where
  pub data_items : List JsonApiResource
  pub device_uuid : Text  -- of `meta`, which also names the version of the agent

-- a row that is an object is stamped; any other is sent as it is
abbrev pub stamped : Text → Value → Value
stamped collected_at (obj fields) =
    obj (insert_field (codes "collected_at") (str collected_at) fields)
stamped collected_at v = v

abbrev pub resources : Text → Text → List Value → List JsonApiResource
resources collected_at table =
    map (λ row. record { kind = table; attributes = stamped collected_at row })

unfoldable pub build_payload_items : Text → Table → List JsonApiResource
build_payload_items collected_at [] = []
build_payload_items collected_at ((table, value) ∷ r) =
    let rest = build_payload_items collected_at r in
    elim (as_array value) [ none ↦ rest | some rows ↦ resources collected_at table rows ++ rest ]
