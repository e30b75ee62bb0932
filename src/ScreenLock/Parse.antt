-- ===== src/ScreenLock/Parse.antt =====
-- src-tauri/src/lib.rs: the parsers behind the Linux screen lock rows. `f64` is not modelled: what
-- `parse::<f64>`, the filter and the rounding make of a timeout in minutes is the parameter
-- `round_minutes`.
use klaayguard.Prelude.{
  ℕ, ◌+◌, Bool, true, false, not, ◌&&◌, ◌||◌, List, [], ◌∷◌, Option, none, some, leb, ◌==◌,
  if◌then◌else◌, and_then, unwrap_or, last?, head?, find_map, map_some,
}
use klaayguard.Text.{
  Text, codes, eq_text, one_of, to_ascii_lowercase, trim, starts_with, contains, contains_char,
  strip_prefix, split, split_by, split_once, split_whitespace, lines, parse_u64, is_whitespace,
}

-- the desktop environments that are told apart
pub data Desktop : Type 0 where
  gnome kde hyprland cinnamon mate xfce other : Desktop

-- one segment of the list, if it names a desktop
abbrev pub segment : Text → Option Desktop
segment seg =
    if one_of seg (codes "gnome" ∷ codes "unity" ∷ codes "ubuntu" ∷ [])
    then some gnome
    else if eq_text seg (codes "kde")
    then some kde
    else if eq_text seg (codes "hyprland")
    then some hyprland
    else if one_of seg (codes "x-cinnamon" ∷ codes "cinnamon" ∷ [])
    then some cinnamon
    else if eq_text seg (codes "mate")
    then some mate
    else if eq_text seg (codes "xfce")
    then some xfce
    else none

unfoldable pub detect_desktop : Option Text → Desktop
detect_desktop xdg =
    unwrap_or
      (find_map (λ s. segment (trim s)) (split b':' (to_ascii_lowercase (unwrap_or xdg [])))) other

unfoldable pub parse_gsettings_bool : Text → Option Bool
parse_gsettings_bool out =
    if eq_text (trim out) (codes "true")
    then some true
    else if eq_text (trim out) (codes "false")
    then some false
    else none

unfoldable pub parse_gsettings_uint : Text → Option ℕ
parse_gsettings_uint out = and_then (last? (split_by is_whitespace (trim out))) parse_u64

-- The state of the loop over kscreenlockerrc.
pub record Kde : Type 0 where
  pub in_daemon : Bool
  pub autolock : Option Bool
  pub timeout_secs : Option ℕ

module _ (round_minutes : Text → Option ℕ) where
  abbrev kde_setting : Text → Text → Kde → Kde
  kde_setting k v s =
      if eq_text k (codes "autolock")
      then record s { autolock = parse_gsettings_bool (to_ascii_lowercase (trim v)) }
      else if eq_text k (codes "timeout")
      then record s { timeout_secs = round_minutes (trim v) }
      else s

  abbrev kde_pair : Option (Text × Text) → Kde → Kde
  kde_pair none s = s
  kde_pair (some (k, v)) s = kde_setting (to_ascii_lowercase (trim k)) v s

  unfoldable pub kde_line : Text → Kde → Kde
  kde_line line s =
      if starts_with line (codes "[")
      then record s { in_daemon = eq_text (to_ascii_lowercase line) (codes "[daemon]") }
      else if not s.in_daemon
      then s
      else kde_pair (split_once b'=' line) s

  abbrev kde_lines : List Text → Kde → Kde
  kde_lines [] s = s
  kde_lines (line ∷ r) s = kde_lines r (kde_line (trim line) s)

  unfoldable pub parse_kscreenlockerrc : Text → Option Bool × Option ℕ
  parse_kscreenlockerrc text =
      let s =
        kde_lines (lines text)
          (record { in_daemon = false; autolock = none; timeout_secs = none }) in
      (s.autolock, s.timeout_secs)

-- The state of the loop over a hypridle configuration. The source's depth is signed, and is read
-- only by `depth <= 0`, after which the listener is left: `opened` and `closed` count both braces.
pub record Hypridle : Type 0 where
  pub in_listener : Bool
  pub opened : ℕ
  pub closed : ℕ
  pub timeout : Option ℕ
  pub locks : Bool

abbrev count : ℕ → Text → ℕ
count c [] = 0
count c (d ∷ s) = let rest = count c s in if d == c then rest + 1 else rest

abbrev is_lock_command : Text → Bool
is_lock_command v = contains v (codes "lock") && not (contains v (codes "unlock"))

abbrev listener_pair : Option (Text × Text) → Hypridle → Hypridle
listener_pair none s = s
listener_pair (some (k, v)) s =
    if eq_text (trim k) (codes "timeout")
    then record s { timeout = parse_u64 (trim v) }
    else if eq_text (trim k) (codes "on-timeout")
    then record s { locks = s.locks || is_lock_command (to_ascii_lowercase v) }
    else s

-- a line inside a listener, before the test that may leave it
abbrev listener_line : Text → Hypridle → Hypridle
listener_line line s =
    listener_pair (split_once b'=' line)
      (record s { opened = s.opened + count b'{' line; closed = s.closed + count b'}' line })

abbrev listener : Hypridle
listener = record { in_listener = true; opened = 1; closed = 0; timeout = none; locks = false }

-- what a listener that ends returns
abbrev lock_timeout : Hypridle → Option ℕ
lock_timeout s = if s.locks then s.timeout else none

abbrev outside : Hypridle → Hypridle
outside s = record s { in_listener = false }

abbrev pub uncommented : Text → Text
uncommented raw = trim (unwrap_or (head? (split b'#' raw)) [])

abbrev hypridle_lines : List Text → Hypridle → Option ℕ
hypridle_lines [] s = none
hypridle_lines (raw ∷ r) s =
    let line = uncommented raw in
    let s' = listener_line line s in
    let opening = hypridle_lines r listener in
    let inside = hypridle_lines r s' in
    let left = hypridle_lines r (outside s') in
    let skip = hypridle_lines r s in
    if contains line (codes "listener") && contains_char line b'{'
    then opening
    else if not s.in_listener
    then skip
    else if not (leb s'.opened s'.closed)
    then inside
    else elim (lock_timeout s') [ some t ↦ some t | none ↦ left ]

unfoldable pub parse_hypridle_config : Text → Option ℕ
parse_hypridle_config text = hypridle_lines (lines text) (outside listener)

abbrev xset_lines : List Text → Option ℕ
xset_lines [] = none
xset_lines (line ∷ r) =
    let rest = xset_lines r in
    elim (strip_prefix (trim line) (codes "timeout:")) [
      | some after ↦ and_then (head? (split_whitespace after)) parse_u64
      | none ↦ rest
    ]

unfoldable pub parse_xset_timeout : Text → Option ℕ
parse_xset_timeout text = xset_lines (lines text)

abbrev is_hidden : Text → Bool
is_hidden line = elim (strip_prefix line (codes "Hidden=")) [
  | some v ↦ eq_text (to_ascii_lowercase (trim v)) (codes "true")
  | none ↦ false
]

abbrev exec_line : Option Text → Option Text → Option Text
exec_line none exec = exec
exec_line (some v) exec = some (trim v)

-- the last `Exec=` line, or `none` at a `Hidden=true`
abbrev exec_of : List Text → Option Text → Option Text
exec_of [] exec = exec
exec_of (line ∷ r) exec =
    let rest = exec_of r (exec_line (strip_prefix (trim line) (codes "Exec=")) exec) in
    if is_hidden (trim line) then none else rest

abbrev pub light_locker_default_lock_after : ℕ
light_locker_default_lock_after = 5

abbrev lock_after : Text → ℕ
lock_after exec =
    unwrap_or
      (and_then
        (find_map (λ a. strip_prefix a (codes "--lock-after-screensaver=")) (split_whitespace exec))
        parse_u64)
      light_locker_default_lock_after

unfoldable pub parse_light_locker_autostart : Text → Option ℕ
parse_light_locker_autostart text = map_some lock_after (exec_of (lines text) none)
