-- ===== src/LaunchAgent.antt =====
-- src-tauri/src/lib.rs: the LaunchAgent of macOS: who may write it, its text, and its installation. The
-- template of the plist is a resource of the build, so its text is a parameter, as is what `launchctl` gives.
-- An error is its fixed text.
use klaayguard.Prelude.{
  ℕ, Bool, true, false, not, ◌&&◌, ◌||◌, List, [], ◌∷◌, ◌++◌, Option, none, some, flat_map, ◌==◌,
  if◌then◌else◌, unwrap_or, zero, suc,
}
use klaayguard.Text.{Text, codes, eq_text, strip_prefix, Result, ok, err}
use klaayguard.Text.Path.{path_starts_with}
pub mod Fuel
pub mod Xml
pub mod Written

-- `replace` of one character by a text
abbrev pub replace_char : ℕ → Text → Text → Text
replace_char c t = flat_map (λ d. if d == c then t else d ∷ [])

unfoldable pub xml_escape : Text → Text
xml_escape s = replace_char b'\'' (codes "&apos;") (
    replace_char b'"' (codes "&quot;") (
      replace_char b'>' (codes "&gt;")
        (replace_char b'<' (codes "&lt;") (replace_char b'&' (codes "&amp;") s))))

unfoldable pub may_write_launch_agent : Text → Text → Bool → Bool
unfolding path_starts_with
may_write_launch_agent current_exe installed_bundle installed =
    installed && path_starts_with current_exe installed_bundle

-- why it may not; the text has the path as it is
unfoldable pub not_the_installed_app : Text → Text → Bool → Option Text
unfolding may_write_launch_agent
not_the_installed_app current_exe installed_bundle installed =
    if may_write_launch_agent current_exe installed_bundle installed
    then none
    else some (
        codes "this build runs from "
        ++ (current_exe
            ++ (codes ", and the installed app is "
                ++ (if installed then codes "elsewhere" else codes "missing"))))

unfoldable pub compiled_api_base_url : Option Text → Text
compiled_api_base_url app_default = unwrap_or app_default (codes "https://api.klaay.com")

-- the compiled value, whatever the environment holds
abbrev pub plist_api_base : Option Text → Text
plist_api_base app_default = compiled_api_base_url app_default

-- `replace` of a text that is not empty, from left to right; the fuel is the length
abbrev pub replace_from : ℕ → Text → Text → Text → Text
replace_from zero pattern t s = s
replace_from (suc n) pattern t [] = []
replace_from (suc n) pattern t (c ∷ s) = elim (strip_prefix (c ∷ s) pattern) [
  | some rest ↦ t ++ replace_from n pattern t rest
  | none ↦ c ∷ replace_from n pattern t s
]

abbrev pub replace : Text → Text → Text → Text
replace pattern t s = replace_from (klaayguard.Prelude.length s) pattern t s

unfoldable pub render_launch_agent_plist : Text → Text → Text → Text → Text → Text
unfolding xml_escape strip_prefix
render_launch_agent_plist template label app_path log_dir api_base =
    replace (codes "__LOG_DIR__") (xml_escape log_dir) (
      replace (codes "__VITE_API_BASE_URL__") (xml_escape api_base) (
        replace (codes "__APP_PATH__") (xml_escape app_path) (
          replace (codes "__KEEP_ALIVE__") (codes "<true/>") (
            replace (codes "__RUN_AT_LOAD__") (codes "<true/>") (
              replace (codes "__OPEN_PATH__") (codes "/usr/bin/open")
                (replace (codes "__LABEL__") label template))))))

-- What the process and its system give.
pub record Mac : Type 0 where
  pub home : Option Text
  pub current_exe : Option Text
  pub installed_exists : Bool
  pub app_default : Option Text  -- the API base of the build
  pub template : Text
  pub create_dir : Bool  -- fails
  pub create_log_dir : Bool
  pub write_open : Bool
  pub write : Bool
  pub partial : Text  -- what a failed write leaves, since `fs::write` truncates the file first
  pub print : Option Bool  -- `launchctl print`; none if it does not run
  pub bootstrap : Option Bool
  pub already : Bool  -- its error says that the job is loaded

abbrev pub label : Text
label = codes "com.klaay.klaayguard"

abbrev pub app_bundle_path : Text
app_bundle_path = codes "/Applications/KlaayGuard.app"

abbrev pub plist_content : Mac → Text → Text
plist_content m home =
    render_launch_agent_plist m.template label app_bundle_path
      (home ++ codes "/Library/Logs/KlaayGuard") (plist_api_base m.app_default)

abbrev pub Plist : Type 0
Plist = Option Text

abbrev pub booted : Mac → Option Bool → Result Text
booted m none = err (codes "Failed to bootstrap launch agent")
booted m (some true) = ok (codes "Launch agent installed successfully")
booted m (some false) =
    if m.already
    then ok (codes "Launch agent installed successfully")
    else err (codes "Failed to bootstrap launch agent")

abbrev pub write_and_load : Mac → Text → Plist → Result Text × Plist
write_and_load m content file =
    if m.write_open
    then (err (codes "Failed to write plist file"), file)
    else if m.write
    then (err (codes "Failed to write plist file"), some m.partial)
    else (booted m m.bootstrap, some content)

-- what `launchctl print` says of the job, when the file is as it is to be
abbrev pub unchanged : Mac → Text → Plist → Option Bool → Result Text × Plist
unchanged m content file none = (err (codes "Failed to check launch agent status"), file)
unchanged m content file (some true) =
    (ok (codes "Launch agent already installed and running"), file)
unchanged m content file (some false) = write_and_load m content file

abbrev pub refresh : Mac → Text → Plist → Result Text × Plist
refresh m content none = write_and_load m content none
refresh m content (some old) =
    if eq_text old content
    then unchanged m content (some old) m.print
    else write_and_load m content (some old)

abbrev pub allowed : Mac → Text → Option Text → Plist → Result Text × Plist
allowed m home (some reason) file = (ok (codes "not writing the LaunchAgent: " ++ reason), file)
allowed m home none file =
    if m.create_log_dir
    then (err (codes "Failed to create log directory"), file)
    else refresh m (plist_content m home) file

abbrev pub from_exe : Mac → Text → Option Text → Plist → Result Text × Plist
from_exe m home none file = (err (codes "Failed to get current executable path"), file)
from_exe m home (some exe) file =
    allowed m home (not_the_installed_app exe app_bundle_path m.installed_exists) file

abbrev pub from_home : Mac → Option Text → Plist → Result Text × Plist
from_home m none file = (err (codes "Could not find home directory"), file)
from_home m (some home) file =
    if m.create_dir
    then (err (codes "Failed to create LaunchAgents directory"), file)
    else from_exe m home m.current_exe file

unfoldable pub install_launch_agent : Mac → Plist → Result Text × Plist
unfolding render_launch_agent_plist not_the_installed_app eq_text compiled_api_base_url
install_launch_agent m file = from_home m m.home file
