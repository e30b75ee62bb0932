-- ===== src/Tests/Fixtures.antt =====
-- The concrete data of the runs: a keyring that holds one entry, a file system without faults, hosts,
-- and the answers of an API.
use klaayguard.Prelude.{ℕ, ◌≡◌, ◌≢◌, refl, true, false, List, [], ◌∷◌, Option, none, some}
use klaayguard.Text.{Text, codes, ok}
use klaayguard.Json.{Value, object, array, str}
use klaayguard.Session.{AppState}
use klaayguard.Http.{Outcome, answered}
use klaayguard.Credentials.{
  Keyring, IsKeyring, Read, found, no_entry, Deletion, deleted, nothing_there, Faults, State,
}
use klaayguard.Device.{Host}
use klaayguard.Cycle.{Env, exited}

abbrev pub entry_read : Option Text → Read
entry_read none = no_entry
entry_read (some v) = found v

abbrev pub entry_deleted : Option Text → Deletion (Option Text)
entry_deleted none = nothing_there
entry_deleted (some v) = deleted none

-- a keyring with room for one entry
abbrev pub ring : Keyring
ring = record {
  Store = Option Text;
  opens = λ _. true;
  set_password = λ v _. ok (some v);
  get_password = entry_read;
  delete_credential = entry_deleted;
}

stored_is_read :
    (v : Text) (s t : Option Text) → ring.set_password v s ≡ ok t → ring.get_password t ≡ found v
stored_is_read v s none h = absurd (cc h)
stored_is_read v s (some w) h = cc h

gone_is_gone :
    (s t : Option Text) → entry_deleted s ≡ deleted t → (v : Text) → entry_read t ≢ found v
gone_is_gone none t h = absurd (cc h)
gone_is_gone (some w) none h = λ v z. absurd (cc z)
gone_is_gone (some w) (some u) h = absurd (cc h)

none_is_none :
    (s : Option Text) → entry_deleted s ≡ nothing_there → (v : Text) → entry_read s ≢ found v
none_is_none none h = λ v z. absurd (cc z)
none_is_none (some w) h = absurd (cc h)

pub ring-IsKeyring : IsKeyring ring
ring-IsKeyring = record {
  set_get = stored_is_read;
  set_opens = λ v s t h. refl;
  deleted_get = gone_is_gone;
  nothing_get = none_is_none;
}

abbrev pub no_faults : Faults
no_faults = record {
  data_dir = false;
  dir = false;
  clear = false;
  create = false;
  write = false;
  partial = [];
  sync = false;
  rename = false;
  read = false;
  remove = false;
  locked = false;
}

abbrev pub locked_file : Faults
locked_file = record no_faults { remove = true }

abbrev pub empty_store : State ring
empty_store = record { entry = none; disk = record { file = none; tmp = none } }

abbrev pub old_file : State ring
old_file = record { entry = none; disk = record { file = some (codes "old"); tmp = none } }

abbrev pub hmac : Text → List ℕ
hmac s = 0xab ∷ []

abbrev pub signed_out : AppState
signed_out = record {
  auth_token = none;
  api_base_url = codes "https://api.klaay.com";
  last_attempt_at = none;
  last_focus_at = none;
  device_identity = none;
  user_label = none;
  token_acquired = false;
  tray_built = true;
  tray_watcher_present = true;
}

abbrev pub signed_in : AppState
signed_in = record signed_out { auth_token = some (codes "t0"); user_label = some (codes "Ada") }

abbrev pub serial_rows : Value
serial_rows = array (object ((codes "hardware_serial", str (codes "PF3ABC12")) ∷ []) ∷ [])

abbrev pub laptop : Host
laptop = record {
  system_info = none;
  query = ok serial_rows;
  machine_id = none;
  random = ok (codes "0123456789abcdef0123456789abcdef");
}

-- one native check, for Linux alone
abbrev pub one_check : Value
one_check = object (
    (codes "id", str (codes "lock"))
    ∷ (codes "type", str (codes "builtin"))
    ∷ (codes "platform", str (codes "linux"))
    ∷ (codes "check", str (codes "screenlock"))
    ∷ [])

abbrev pub configuration : Value
configuration = object ((codes "data", array (one_check ∷ [])) ∷ [])

abbrev pub lock_rows : Value
lock_rows = array (object ((codes "enabled", str (codes "yes")) ∷ []) ∷ [])

abbrev pub answer : ℕ → Option Value → ℕ → Outcome
answer status json n = answered (record { status = status; json = json })

abbrev pub working : Env
working = record {
  os = codes "linux";
  now = 100;
  focus_debounce_seconds = 60;
  collected_at = codes "2026-01-01T00:00:00Z";
  config_answers = answer 200 (some configuration);
  post_answers = answer 200 none;
  native = record {
    disk_encryption = array [];
    screenlock = lock_rows;
    auto_update = array [];
    password_policy = array [];
  };
  osquery_run = λ sql. exited true none;
  host = laptop;
}

-- the API refuses the token
abbrev pub revoked : Env
revoked = record working { config_answers = answer 401 none }
