-- ===== src/Disk/Lsblk.antt =====
-- src-tauri/src/lib.rs: `parse_lsblk`, the walk over the tree of block devices. The walk runs on fuel: one
-- step for each level of the tree.
use klaayguard.Prelude.{
  ℕ, zero, suc, max, Bool, false, ◌||◌, List, [], ◌∷◌, ◌++◌, Option, none, some, any, filter_map,
  is_empty, if◌then◌else◌, unwrap_or, map_some,
}
use klaayguard.Text.{Text, codes, eq_text}
use klaayguard.Json.{
  Value, Items, Fields, null, bool, num, str, arr, obj, nil, cons, end, as_str, get_str, get_array,
}
use klaayguard.Json
use klaayguard.Disk.{FlatDev}

-- A text field, empty where it is missing or no text.
abbrev pub field : Value → Text → Text
field v k = unwrap_or (get_str k v) []

-- `out.push(m)`, unless `out` has it
abbrev pub push_absent : List Text → Text → List Text
push_absent out m = if any (λ x. eq_text x m) out then out else out ++ (m ∷ [])

abbrev push_new : List Text → Text → List Text
push_new out m = if is_empty m then out else push_absent out m

abbrev pub push_all_new : List Text → List Text → List Text
push_all_new out [] = out
push_all_new out (m ∷ ms) = push_all_new (push_new out m) ms

abbrev pub singular : Option Text → List Text
singular none = []
singular (some m) = if is_empty m then [] else m ∷ []

unfoldable pub mountpoints_of : Value → List Text
unfolding eq_text
mountpoints_of v =
    push_all_new (singular (get_str (codes "mountpoint") v))
      (filter_map as_str (unwrap_or (get_array (codes "mountpoints") v) []))

abbrev pub is_crypt : Value → Bool
is_crypt node = eq_text (field node (codes "type")) (codes "crypt")

abbrev pub children : Value → List Value
children node = unwrap_or (get_array (codes "children") node) []

abbrev pub flat_dev : Value → Bool → Text → FlatDev
flat_dev node parent_on_crypt parent_fstype = record {
  mountpoints = mountpoints_of node;
  kind = field node (codes "type");
  on_crypt = parent_on_crypt || is_crypt node;
  parent_fstype = parent_fstype;
}

abbrev pub both : Option (List FlatDev) → Option (List FlatDev) → Option (List FlatDev)
both (some xs) (some ys) = some (xs ++ ys)
both _ _ = none

-- a loop that appends to `out` what `walk` does
abbrev pub walk_each : (Value → Option (List FlatDev)) → List Value → Option (List FlatDev)
walk_each walk [] = some []
walk_each walk (child ∷ rest) = both (walk child) (walk_each walk rest)

unfoldable pub walk : ℕ → Value → Bool → Text → Option (List FlatDev)
unfolding eq_text
walk zero node parent_on_crypt parent_fstype = none
walk (suc fuel) node parent_on_crypt parent_fstype =
    map_some (λ (below : List FlatDev). flat_dev node parent_on_crypt parent_fstype ∷ below)
      (walk_each
        (λ child. walk fuel child (parent_on_crypt || is_crypt node) (field node (codes "fstype")))
        (children node))

abbrev pub block_devices : Value → List Value
block_devices parsed = unwrap_or (get_array (codes "blockdevices") parsed) []

abbrev pub flatten : ℕ → Value → Option (List FlatDev)
flatten fuel parsed = walk_each (λ dev. walk fuel dev false []) (block_devices parsed)

-- how many values stand inside one another
unfoldable mutual
  pub depth : Value → ℕ
  depth null = 1
  depth (bool b) = 1
  depth (num n) = 1
  depth (str s) = 1
  depth (arr vs) = suc (depth_items vs)
  depth (obj r) = suc (depth_fields r)

  pub depth_items : Items → ℕ
  depth_items nil = 0
  depth_items (cons v vs) = max (depth v) (depth_items vs)

  pub depth_fields : Fields → ℕ
  depth_fields end = 0
  depth_fields (Json.field k v r) = max (depth v) (depth_fields r)

-- Text that is no JSON has no devices.
unfoldable pub parse_lsblk : Option Value → List FlatDev
parse_lsblk none = []
parse_lsblk (some parsed) = unwrap_or (flatten (depth parsed) parsed) []
