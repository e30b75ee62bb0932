-- ===== src/Tray.antt =====
-- src-tauri/src/lib.rs: the tray. `refresh_tray` changes the menu step by step: it moves the name line and
-- "Sign out" in and out only when their flags flip. The menu itself is the `tauri` crate, a parameter; a
-- refresh is one step, since the closure runs on the main thread. `current` is the version of the package.
use klaayguard.Prelude.{
  ℕ, zero, suc, ◌+◌, ◌-◌, ◌/◌, ◌%◌, ◌^◌, ◌≡◌, Bool, true, false, not, List, [], ◌∷◌, ◌++◌, Option,
  none, some, filter, ltb, leb, ◌==◌, if◌then◌else◌, is_some, unwrap_or,
}
use klaayguard.Text.{Text, codes}
use klaayguard.Session.{AppState}
pub mod Consistent
pub mod Decimal
pub mod Disc
pub mod Pixels
pub mod Icon
pub mod Drawn
pub mod Dotted

pub data Item : Type 0 where
  user auth_action employee_hub separator version sign_out : Item

abbrev pub same_item : Item → Item → Bool
same_item user user = true
same_item auth_action auth_action = true
same_item employee_hub employee_hub = true
same_item separator separator = true
same_item version version = true
same_item sign_out sign_out = true
same_item _ _ = false

-- `tauri::menu::Menu`: its operations, and the items that it shows
pub record MenuApi : Type 1 where
  pub Menu : Type 0
  pub with_items : List Item → Menu
  pub prepend : Item → Menu → Menu
  pub append : Item → Menu → Menu
  pub remove : Item → Menu → Menu
  pub items : Menu → List Item

-- The crate's documentation: an item joins at the top or at the bottom, and leaves.
pub record IsMenuApi (api : MenuApi) : Type 0 where
  pub items-with_items : (xs : List Item) → api.items (api.with_items xs) ≡ xs
  pub items-prepend : (i : Item) (m : api.Menu) → api.items (api.prepend i m) ≡ i ∷ api.items m
  pub items-append :
      (i : Item) (m : api.Menu) → api.items (api.append i m) ≡ api.items m ++ (i ∷ [])
  pub items-remove :
      (i : Item) (m : api.Menu)
      → api.items (api.remove i m) ≡ filter (λ j. not (same_item i j)) (api.items m)

pub data Dot : Type 0 where
  red green : Dot

-- a decimal number, on fuel for its digits
abbrev pub digits : ℕ → ℕ → Text → Text
digits zero n out = out
digits (suc fuel) n out = elim (leb n 9) [
  | true ↦ (b'0' + n % 10) ∷ out
  | false ↦ digits fuel (n / 10) ((b'0' + n % 10) ∷ out)
]

abbrev pub decimal : ℕ → Text
decimal n = digits (suc n) n []

-- `{:02}`
abbrev two_digits : ℕ → Text
two_digits n = if leb n 9 then b'0' ∷ decimal n else decimal n

unfoldable pub fmt_countdown : ℕ → Text
fmt_countdown secs =
    if secs == 0
    then codes "Fetching now…"
    else if secs / 60 == 0
    then codes "Next fetch in " ++ (decimal (secs % 60) ++ codes "s")
    else codes "Next fetch in "
      ++ (decimal (secs / 60) ++ (codes "m " ++ (two_digits (secs % 60) ++ codes "s")))

-- `(a as i64 - b as i64).max(0)` of two `u64`, as the release build does it
unfoldable pub i64_positive_difference : ℕ → ℕ → ℕ
i64_positive_difference a b = let d = (a + (2 ^ 64 - b)) % 2 ^ 64 in if ltb d (2 ^ 63) then d else 0

-- what a refresh reads of the state, with the interval and the clock
abbrev pub remaining : ℕ → ℕ → Option ℕ → ℕ
remaining interval now none = 0
remaining interval now (some t) = i64_positive_difference interval (now - t)

pub record Look : Type 0 where
  pub text : Text
  pub enabled : Bool
  pub user_label : Option Text

unfoldable pub look : ℕ → ℕ → AppState → Look
unfolding fmt_countdown i64_positive_difference
look interval now s =
    if is_some s.auth_token
    then record {
      text = fmt_countdown (remaining interval now s.last_attempt_at);
      enabled = false;
      user_label = s.user_label;
    }
    else record { text = codes "Sign in"; enabled = true; user_label = s.user_label }

abbrev pub neutral_items : List Item
neutral_items = auth_action ∷ employee_hub ∷ separator ∷ version ∷ []

abbrev pub dot_of : Bool → Dot
dot_of true = green
dot_of false = red

module _ (api : MenuApi) where
  pub record TrayMenu : Type 0 where
    pub item_text : Text
    pub item_enabled : Bool
    pub user_text : Text
    pub user_shown : Bool
    pub menu : api.Menu
    pub icon : Dot
    pub last_signed_in : Bool

  -- as `setup` builds it
  unfoldable pub starting : TrayMenu
  starting = record {
    item_text = codes "Starting…";
    item_enabled = false;
    user_text = [];
    user_shown = false;
    menu = api.with_items neutral_items;
    icon = red;
    last_signed_in = false;
  }

  abbrev pub set_item : Look → TrayMenu → TrayMenu
  set_item l t = record t {
    item_text = l.text;
    item_enabled = l.enabled;
    user_text = unwrap_or l.user_label t.user_text;
  }

  -- the name line joins or leaves when its flag flips
  abbrev pub show_user : Bool → TrayMenu → TrayMenu
  show_user true t = record t {
    user_shown = true;
    menu = if t.user_shown then t.menu else api.prepend user t.menu;
  }
  show_user false t = record t {
    user_shown = false;
    menu = if t.user_shown then api.remove user t.menu else t.menu;
  }

  -- the dot and "Sign out" change when the session does
  abbrev pub show_session : Bool → TrayMenu → TrayMenu
  show_session true t = record t {
    last_signed_in = true;
    icon = if t.last_signed_in then t.icon else green;
    menu = if t.last_signed_in then t.menu else api.append sign_out t.menu;
  }
  show_session false t = record t {
    last_signed_in = false;
    icon = if t.last_signed_in then red else t.icon;
    menu = if t.last_signed_in then api.remove sign_out t.menu else t.menu;
  }

  unfoldable pub refresh_tray : Look → TrayMenu → TrayMenu
  refresh_tray l t = show_session (not l.enabled) (show_user (is_some l.user_label) (set_item l t))
