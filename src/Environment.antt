-- ===== src/Environment.antt =====
-- src-tauri/src/lib.rs: what the agent reads of its environment. A variable that is not set, or not Unicode, is
-- none; the values that the build fixes are arguments.
use klaayguard.Prelude.{ℕ, ◌*◌, Option, none, some, keep_if, and_then, unwrap_or, ltb, ◌≤◌, arith}
use klaayguard.Text.{Text, codes, parse_u64}

abbrev pub Env : Type 0
Env = Text → Option Text

unfoldable pub env_seconds : Env → Text → ℕ → ℕ
unfolding parse_u64
env_seconds env name default =
    unwrap_or (keep_if (λ n. ltb 0 n) (and_then (env name) parse_u64)) default

abbrev pub focus_debounce_seconds : Env → ℕ
focus_debounce_seconds env = env_seconds env (codes "KLAAYGUARD_FAILURE_FOCUS_DEBOUNCE_SECONDS") 60

abbrev pub collection_interval_seconds : Env → ℕ
collection_interval_seconds env =
    env_seconds env (codes "KLAAYGUARD_COLLECTION_INTERVAL_SECONDS") 900

abbrev pub update_check_interval_seconds : Env → ℕ
update_check_interval_seconds env =
    env_seconds env (codes "KLAAYGUARD_UPDATE_INTERVAL_SECONDS") (6 * 60 * 60)

abbrev or_else : Option Text → Option Text → Option Text
or_else none b = b
or_else (some a) b = some a

unfoldable pub get_api_base_url : Env → Option Text → Text
get_api_base_url env app_default =
    unwrap_or (or_else (env (codes "VITE_API_BASE_URL")) app_default)
      (codes "https://api.klaay.com")

unfoldable pub get_frontend_url : Env → Option Text → Text
get_frontend_url env app_default =
    unwrap_or (or_else (env (codes "VITE_FRONTEND_URL")) app_default)
      (codes "https://app.klaay.com")

positive :
    (o : Option ℕ) (default : ℕ) → 1 ≤ default → 1 ≤ unwrap_or (keep_if (λ n. ltb 0 n) o) default
positive none default h = h
positive (some n) default h = ground arith

-- An interval is at least a second, whatever the environment holds, if its default is.
pub env_seconds-positive :
    (env : Env) (name : Text) (default : ℕ) → 1 ≤ default → 1 ≤ env_seconds env name default
unfolding env_seconds
env_seconds-positive env name default h = positive (and_then (env name) parse_u64) default h
