-- ===== src/Disk/Tree.antt =====
-- src-tauri/src/lib.rs: the fuel that the walk of `parse_lsblk` is given.
use klaayguard.Prelude.{
  some_inj, ℕ, zero, suc, max, ◌≤◌, ◌<◌, ◌≡◌, refl, Bool, true, false, ◌||◌, List, [], ◌∷◌, ◌++◌,
  Option, none, some, In, inl, inr, arith, unwrap_or, and_then, if◌then◌else◌,
}
use klaayguard.Text.{Text, codes, eq_text}
use klaayguard.Json.{
  Value, Items, Fields, null, bool, num, str, arr, obj, nil, cons, end, elements, get, get_field,
  get_array, as_array,
}
use klaayguard.Json
use klaayguard.Disk.{FlatDev}
use klaayguard.Disk.Lsblk.{
  field, children, is_crypt, flat_dev, walk, walk_each, flatten, block_devices, depth, depth_items,
  depth_fields, parse_lsblk,
}

mutual
  unfolding depth

  depth_items-elements : (v : Value) (vs : Items) → In v (elements vs) → depth v ≤ depth_items vs
  depth_items-elements v nil h = absurd h
  depth_items-elements v (cons w vs) (inl e) = rw e (omega arith)
  depth_items-elements v (cons w vs) (inr h) = omega (arith, depth_items-elements v vs h)

-- the field that is found, or one further on
depth-found :
    (b : Bool) (w v : Value) (rest : Option Value) (n : ℕ)
    → (rest ≡ some v → depth v ≤ n)
    → (if b then some w else rest) ≡ some v
    → depth v ≤ max (depth w) n
depth-found true w v rest n later h = rw (← some_inj h) (omega arith)
depth-found false w v rest n later h = omega (arith, later h)

depth-get_field :
    (k : Text) (r : Fields) (v : Value) → get_field k r ≡ some v → depth v ≤ depth_fields r
unfolding get_field depth
depth-get_field k end v h = absurd (cc (h))
depth-get_field k (Json.field j w r) v h =
    depth-found (eq_text j k) w v (get_field k r) (depth_fields r) (depth-get_field k r v) h

depth-get : (k : Text) (node v : Value) → get k node ≡ some v → depth v < depth node
unfolding depth get
depth-get k (obj r) v h = omega (arith, depth-get_field k r v h)
depth-get k null v h = absurd (cc (h))
depth-get k (bool b) v h = absurd (cc (h))
depth-get k (num n) v h = absurd (cc (h))
depth-get k (str s) v h = absurd (cc (h))
depth-get k (arr vs) v h = absurd (cc (h))

depth-element :
    (o : Option Value) (v : Value)
    → In v (unwrap_or (and_then o as_array) [])
    → (w : Value) × (o ≡ some w) × (depth v < depth w)
unfolding depth
depth-element (some (arr vs)) v h = (arr vs, refl, omega (arith, depth_items-elements v vs h))
depth-element (some null) v h = absurd h
depth-element (some (bool b)) v h = absurd h
depth-element (some (num n)) v h = absurd h
depth-element (some (str s)) v h = absurd h
depth-element (some (obj r)) v h = absurd h
depth-element none v h = absurd h

-- A value in an array that stands in an object is less deep than the object.
depth-get_array :
    (k : Text) (node v : Value) → In v (unwrap_or (get_array k node) []) → depth v < depth node
depth-get_array k node v h =
    let (w, e, l) = depth-element (get k node) v h in omega (arith, depth-get k node w e)

-- Two walks that both end, with the same devices.
abbrev Agree : Option (List FlatDev) → Option (List FlatDev) → Type 0
Agree a b = (ds : List FlatDev) × (a ≡ some ds) × (b ≡ some ds)

walk_each-Agree :
    (f g : Value → Option (List FlatDev)) (cs : List Value)
    → ((c : Value) → In c cs → Agree (f c) (g c))
    → Agree (walk_each f cs) (walk_each g cs)
walk_each-Agree f g [] h = ([], refl, refl)
walk_each-Agree f g (c ∷ cs) h =
    let (xs, fx, gx) = h c (inl refl) in
    let (ys, fy, gy) = walk_each-Agree f g cs (λ d m. h d (inr m)) in
    (xs ++ ys, rw (fx, fy) refl, rw (gx, gy) refl)

no_depth : (v : Value) → depth v ≤ 0 → ⊥
unfolding depth
no_depth null h = omega arith
no_depth (bool b) h = omega arith
no_depth (num n) h = omega arith
no_depth (str s) h = omega arith
no_depth (arr vs) h = omega arith
no_depth (obj r) h = omega arith

walk-Agree :
    (n m : ℕ) (node : Value) (c : Bool) (f : Text)
    → depth node ≤ n
    → depth node ≤ m
    → Agree (walk n node c f) (walk m node c f)
unfolding walk
walk-Agree zero m node c f h k = absurd (no_depth node h)
walk-Agree (suc n) zero node c f h k = absurd (no_depth node k)
walk-Agree (suc n) (suc m) node c f h k =
    let (ds, e, g) = walk_each-Agree _ _ (children node) (λ child i.
      walk-Agree n m child (c || is_crypt node) (field node (codes "fstype"))
        (omega (arith, depth-get_array (codes "children") node child i))
        (omega (arith, depth-get_array (codes "children") node child i))) in
    (flat_dev node c f ∷ ds, rw e refl, rw g refl)

-- Whatever fuel is at least the depth of the tree, the walk ends, and its devices are those of
-- `parse_lsblk`.
pub flatten-enough_fuel :
    (parsed : Value) (fuel : ℕ)
    → depth parsed ≤ fuel
    → flatten fuel parsed ≡ some (parse_lsblk (some parsed))
unfolding parse_lsblk
flatten-enough_fuel parsed fuel h =
    let (ds, e, g) = walk_each-Agree _ _ (block_devices parsed) (λ dev i.
      walk-Agree fuel (depth parsed) dev false []
        (omega (arith, depth-get_array (codes "blockdevices") parsed dev i))
        (omega (arith, depth-get_array (codes "blockdevices") parsed dev i))) in
    rw (e, g) refl
