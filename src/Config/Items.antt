-- ===== src/Config/Items.antt =====
-- Which items `parse_config_items` makes of a reply.
use klaayguard.Prelude.{
  ◌≡◌, refl, Bool, true, false, List, [], Option, none, some, arith, unwrap_or, map_some,
  filter_map, ◌↔◌, In, In-filter_map, filter_map-In,
}
use klaayguard.Text.{Text, codes, is_text}
use klaayguard.Json.{Value, get_str, get_array}
use klaayguard.Config.{
  is_read_only_query, platform_matches, CollectionItem, osquery, builtin, default_sql, config_item,
  parse_config_items,
}

-- An entry of the reply is marked as a native check.
abbrev pub is_builtin : Value → Bool
is_builtin entry = is_text (get_str (codes "type") entry) (codes "builtin")

-- The entry asks for the item, on this host: it names the id, its platform matches, and it is either
-- a native check that names its `check`, or a query that passes the gate, by default the whole
-- table.
abbrev pub Admits : Text → Value → CollectionItem → Type 0
Admits os entry (osquery id sql) =
    (get_str (codes "id") entry ≡ some id)
    × (platform_matches (get_str (codes "platform") entry) os ≡ true)
    × (is_builtin entry ≡ false)
    × (sql ≡ unwrap_or (get_str (codes "sql") entry) (default_sql id))
    × (is_read_only_query sql ≡ true)
Admits os entry (builtin id check) =
    (get_str (codes "id") entry ≡ some id)
    × (platform_matches (get_str (codes "platform") entry) os ≡ true)
    × (is_builtin entry ≡ true)
    × (get_str (codes "check") entry ≡ some check)

abbrev pub entries : Value → List Value
entries cfg = unwrap_or (get_array (codes "data") cfg) []

config_item-Admits :
    (os : Text) (entry : Value) (it : CollectionItem)
    → config_item os entry ≡ some it
    → Admits os entry it
unfolding config_item
config_item-Admits os entry (osquery id sql) h = ground arith
config_item-Admits os entry (builtin id check) h = ground arith

Admits-config_item :
    (os : Text) (entry : Value) (it : CollectionItem)
    → Admits os entry it
    → config_item os entry ≡ some it
unfolding config_item
Admits-config_item os entry (osquery id sql) h = ground arith
Admits-config_item os entry (builtin id check) h = ground arith

parse_config_items-entries :
    (cfg : Value) (os : Text)
    → parse_config_items cfg os ≡ filter_map (config_item os) (entries cfg)
unfolding parse_config_items
parse_config_items-entries cfg os = cases (get_array (codes "data") cfg)
  where
    cases :
        (o : Option (List Value))
        → unwrap_or (map_some (filter_map (config_item os)) o) []
          ≡ filter_map (config_item os) (unwrap_or o [])
    cases none = refl
    cases (some es) = refl

-- An item is collected exactly if some entry of the reply's `data` asks for it.
pub parse_config_items-Admits :
    (cfg : Value) (os : Text) (it : CollectionItem)
    → In it (parse_config_items cfg os)
      ↔ ((entry : Value) × In entry (entries cfg) × Admits os entry it)
parse_config_items-Admits cfg os it = (
  λ m.
      let (entry, at, made) =
        In-filter_map (config_item os) it (entries cfg)
          (rw (parse_config_items-entries cfg os) at m) in
      (entry, at, config_item-Admits os entry it made),
  λ (entry, at, asks). rw (parse_config_items-entries cfg os) (
      filter_map-In (config_item os) it entry (entries cfg) at
        (Admits-config_item os entry it asks)),
)
