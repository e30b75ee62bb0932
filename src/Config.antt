-- ===== src/Config.antt =====
-- src-tauri/src/lib.rs: the server's configuration. `is_read_only_query` is the gate on SQL,
-- `platform_matches` the filter on platforms, `parse_config_items` turns a reply into the items to
-- collect. Logging and breadcrumbs are left out.
use klaayguard.Prelude.{
  Bool, true, false, not, ◌&&◌, ◌||◌, List, [], ◌∷◌, ◌++◌, Option, none, some, ◌==◌, if◌then◌else◌,
  map, any, filter_map, is_empty, unwrap_or, map_some, ℕ,
}
use klaayguard.Text.{
  Text, codes, trim, trim_end_matches, contains_char, to_ascii_lowercase, starts_with, split_by,
  split, one_of, eq_text, is_text, is_ascii_alphanumeric, is_whitespace, lower, trim_start_by,
  trim_end_by,
}
use klaayguard.Json.{Value, get_str, get_array}
pub mod Query
pub mod Items
pub mod Platform

-- The separators of the words that the gate looks at.
unfoldable pub is_separator : ℕ → Bool
unfolding is_ascii_alphanumeric
is_separator c = not (is_ascii_alphanumeric c || c == b'_')

abbrev pub verbs : List Text
verbs = codes "insert" ∷ codes "update" ∷ codes "delete" ∷ codes "replace" ∷ []

-- `trimmed` of `is_read_only_query`
abbrev pub statement : Text → Text
statement sql = trim (trim_end_matches b';' (trim sql))

unfoldable pub is_read_only_query : Text → Bool
unfolding trim_start_by trim_end_by is_whitespace lower starts_with split_by eq_text is_separator
is_read_only_query sql =
    let trimmed = statement sql in
    let lower = to_ascii_lowercase trimmed in
    if contains_char trimmed b';'
    then false
    else if not (starts_with lower (codes "select") || starts_with lower (codes "with"))
    then false
    else not (any (λ tok. one_of tok verbs) (split_by is_separator lower))

abbrev pub linux : Text
linux = codes "linux"

abbrev pub macos : Text
macos = codes "macos"

abbrev pub windows : Text
windows = codes "windows"

-- the `match` on one trimmed, lower-case name of the list
unfoldable pub name_matches : Text → Text → Bool
unfolding eq_text
name_matches os name =
    if one_of name ([] ∷ codes "all" ∷ codes "any" ∷ codes "null" ∷ [])
    then true
    else if eq_text name (codes "posix")
    then eq_text os linux || eq_text os macos
    else if one_of name (linux ∷ codes "ubuntu" ∷ codes "centos" ∷ [])
    then eq_text os linux
    else if one_of name (codes "darwin" ∷ macos ∷ [])
    then eq_text os macos
    else eq_text name os

unfoldable pub platform_matches : Option Text → Text → Bool
platform_matches none os = true
platform_matches (some tag) os =
    if is_empty (trim tag)
    then true
    else any (λ name. name_matches os (to_ascii_lowercase (trim name))) (split b',' tag)

pub data CollectionItem : Type 0 where
  osquery : (id : Text) → (sql : Text) → CollectionItem
  builtin : (id : Text) → (check : Text) → CollectionItem

abbrev pub default_sql : Text → Text
default_sql id = codes "SELECT * FROM " ++ id

-- the builtin branch: an item with no `check` is dropped
abbrev pub builtin_item : Text → Option Text → Option CollectionItem
builtin_item id none = none
builtin_item id (some check) = some (builtin id check)

abbrev pub osquery_item : Text → Text → Option CollectionItem
osquery_item id sql = if not (is_read_only_query sql) then none else some (osquery id sql)

-- the closure of `filter_map`, behind the `?` on `id`
abbrev pub identified_item : Text → Value → Text → Option CollectionItem
identified_item os item id =
    if not (platform_matches (get_str (codes "platform") item) os)
    then none
    else if is_text (get_str (codes "type") item) (codes "builtin")
    then builtin_item id (get_str (codes "check") item)
    else osquery_item id (unwrap_or (get_str (codes "sql") item) (default_sql id))

unfoldable pub config_item : Text → Value → Option CollectionItem
config_item os item = elim (get_str (codes "id") item) [
  | none ↦ none
  | some id ↦ identified_item os item id
]

unfoldable pub parse_config_items : Value → Text → List CollectionItem
parse_config_items cfg os =
    unwrap_or (map_some (filter_map (config_item os)) (get_array (codes "data") cfg)) []
