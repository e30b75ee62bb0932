-- ===== src/AutoUpdate.antt =====
-- src-tauri/src/lib.rs: the automatic update row of Linux, for apt and for dnf. What the commands and files of
-- the host give is the record `Host`. The text of `detail` is left out: it is for a person.
use klaayguard.Prelude.{
  ◌≡◌, refl, ◌⊎◌, inl, inr, Bool, true, false, not, ◌&&◌, ◌||◌, List, [], ◌∷◌, Option, none, some,
  if◌then◌else◌, find_map, filter_map, and_then, map_some, map, keep_if, is_empty, arith,
  Bool-cases, is_some,
}
use klaayguard.Text.{
  Text, codes, eq_text, is_text, one_of, trim, trim_start_matches, trim_end_matches, split_once,
  lines, starts_with, to_ascii_lowercase,
}
use klaayguard.Json.{Value, array, object, str}
use klaayguard.ScreenLock.{Tri, affirmed, denied, unknown, tri_text}
pub mod Granted

pub record UpdateRow : Type 0 where
  pub enabled : Tri
  pub source : Text

abbrev pub auto_update_row : Tri → Text → UpdateRow
auto_update_row enabled source = record { enabled = enabled; source = source }

-- the row as it is sent
unfoldable pub row_json : UpdateRow → Value
row_json r = array (
    object ((codes "enabled", str (tri_text r.enabled)) ∷ (codes "source", str r.source) ∷ []) ∷ [])

-- `trim_matches('\'')`
abbrev trim_quotes : Text → Text
trim_quotes s = trim_end_matches b'\'' (trim_start_matches b'\'' s)

abbrev assignment : Text → Option (Text × Text)
assignment line =
    map_some (λ (r : Text × Text). (trim r.0, trim_quotes (trim r.1))) (split_once b'=' line)

-- The pairs in the order of their lines; a map keeps the last of a name.
unfoldable pub parse_apt_config_shell : Text → List (Text × Text)
unfolding lines split_once
parse_apt_config_shell out = filter_map assignment (lines out)

abbrev last_or : Option Text → Text → Bool → Option Text
last_or (some v) w same = some v
last_or none w same = if same then some w else none

-- `vars.get(name)`
unfoldable pub lookup_last : Text → List (Text × Text) → Option Text
unfolding eq_text
lookup_last name [] = none
lookup_last name ((k, v) ∷ vars) = last_or (lookup_last name vars) v (eq_text k name)

abbrev pub apt : Text
apt = codes "apt"

abbrev pub dnf : Text
dnf = codes "dnf"

-- `None | Some("") | Some("0")`
abbrev pub is_off : Option Text → Bool
is_off none = true
is_off (some v) = is_empty v || eq_text v (codes "0")

unfoldable pub auto_update_row_apt : Option Text → Option Text → Bool → Option Text → UpdateRow
unfolding eq_text
auto_update_row_apt enable unattended installed timer =
    if not installed
    then auto_update_row denied apt
    else if is_text enable (codes "0")
    then auto_update_row denied apt
    else if is_off unattended
    then auto_update_row denied apt
    else if is_text timer (codes "disabled") || is_text timer (codes "masked")
    then auto_update_row denied apt
    else auto_update_row affirmed apt

-- the value of `apply_updates`
abbrev truth : Text → Option Bool
truth v =
    if one_of v (codes "yes" ∷ codes "true" ∷ codes "1" ∷ codes "on" ∷ [])
    then some true
    else if one_of v (codes "no" ∷ codes "false" ∷ codes "0" ∷ codes "off" ∷ [])
    then some false
    else none

-- what a line that is no section gives: it ends the search, or the next is read
abbrev dnf_setting : Bool → Option (Text × Text) → Option Bool → Option Bool
dnf_setting in_commands none rest = rest
dnf_setting in_commands (some (key, value)) rest =
    if in_commands && eq_text (trim key) (codes "apply_updates")
    then truth (to_ascii_lowercase (trim value))
    else rest

abbrev dnf_lines : Bool → List Text → Option Bool
dnf_lines in_commands [] = none
dnf_lines in_commands (line ∷ rest) =
    let section = dnf_lines (eq_text line (codes "[commands]")) rest in
    let same = dnf_lines in_commands rest in
    if starts_with line (codes "[")
    then section
    else dnf_setting in_commands (split_once b'=' line) same

unfoldable pub parse_dnf_apply_updates : Text → Option Bool
unfolding lines split_once starts_with eq_text
parse_dnf_apply_updates text = dnf_lines false (map trim (lines text))

abbrev pub is_true : Option Bool → Bool
is_true none = false
is_true (some b) = b

unfoldable pub auto_update_row_dnf : Bool → Bool → Option Bool → UpdateRow
auto_update_row_dnf timer_enabled install_timer_enabled apply =
    if install_timer_enabled
    then auto_update_row affirmed dnf
    else if not timer_enabled
    then auto_update_row denied dnf
    else if is_true apply
    then auto_update_row affirmed dnf
    else auto_update_row denied dnf

-- What the host gives: commands on the path, the outputs of commands, and files.
pub record Host : Type 0 where
  pub binary_on_path : Text → Bool
  pub apt_config : Option Text  -- of a run that succeeds
  pub unattended_upgrade_exists : Bool
  pub systemctl : Text → Option Text  -- the output of `is-enabled`, whatever the exit code
  pub read : Text → Option Text

module _ (h : Host) where
  unfoldable pub systemctl_is_enabled : Text → Option Text
  systemctl_is_enabled unit =
      keep_if (λ s. not (is_empty s)) (map_some (λ out. trim out) (h.systemctl unit))

  abbrev pub apt_answer : Option Text → UpdateRow
  apt_answer none = auto_update_row unknown apt
  apt_answer (some out) =
      let vars = parse_apt_config_shell out in
      auto_update_row_apt (lookup_last (codes "E") vars) (lookup_last (codes "U") vars)
        h.unattended_upgrade_exists (systemctl_is_enabled (codes "apt-daily-upgrade.timer"))

  abbrev pub is_enabled : Text → Bool
  is_enabled unit = is_text (systemctl_is_enabled unit) (codes "enabled")

  abbrev pub dnf_apply : Option Bool
  dnf_apply =
      find_map (λ path. and_then (h.read path) parse_dnf_apply_updates)
        (codes "/etc/dnf/automatic.conf" ∷ codes "/usr/share/dnf5/dnf5-plugins/automatic.conf" ∷ [])

  abbrev pub dnf_answer : UpdateRow
  dnf_answer =
      auto_update_row_dnf
        (is_enabled (codes "dnf5-automatic.timer") || is_enabled (codes "dnf-automatic.timer"))
        (is_enabled (codes "dnf-automatic-install.timer")) dnf_apply

  unfoldable pub collect_auto_update : UpdateRow
  unfolding parse_apt_config_shell lookup_last auto_update_row_apt systemctl_is_enabled eq_text
      parse_dnf_apply_updates auto_update_row_dnf
  collect_auto_update =
      if h.binary_on_path (codes "apt-config")
      then apt_answer h.apt_config
      else if h.binary_on_path (codes "dnf5") || h.binary_on_path (codes "dnf")
      then (if not (h.binary_on_path (codes "systemctl"))
          then auto_update_row unknown dnf
          else dnf_answer)
      else auto_update_row unknown (codes "none")
