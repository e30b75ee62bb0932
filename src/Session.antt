-- ===== src/Session.antt =====
-- src-tauri/src/lib.rs: `AppState` and the three methods that move the token and the name of its
-- holder. Each method here is a whole call; Session/Race takes them apart at their locks.
use klaayguard.Prelude.{ℕ, Bool, true, false, Option, none, some, if◌then◌else◌}
use klaayguard.Text.{Text, eq_text}
pub mod Race
pub mod Laws

-- An `Instant` is a number of seconds; `token_acquired` holds at most one permit.
pub record AppState : Type 0 where
  pub auth_token : Option Text
  pub api_base_url : Text
  pub last_attempt_at : Option ℕ
  pub last_focus_at : Option ℕ
  pub device_identity : Option Text
  pub user_label : Option Text
  pub token_acquired : Bool
  pub tray_built : Bool
  pub tray_watcher_present : Bool

unfoldable pub adopt_session : Text → Option Text → AppState → AppState
adopt_session token label s = record s { auth_token = some token; user_label = label }

unfoldable pub clear_session : AppState → AppState
clear_session s = record s { auth_token = none; user_label = none }

-- `==` on `Option<&str>`
abbrev pub same_token : Option Text → Option Text → Bool
same_token none none = true
same_token (some a) (some b) = eq_text a b
same_token _ _ = false

unfoldable pub name_holder_of : Option Text → Option Text → AppState → AppState
name_holder_of token label s =
    if same_token s.auth_token token then record s { user_label = label } else s
