-- ===== src/Disk/Visit.antt =====
-- src-tauri/src/lib.rs: `parse_lsblk` against the tree that it walks. A node is visited with its ancestors,
-- the nearest first.
use klaayguard.Prelude.{
  ℕ, zero, suc, ◌≡◌, refl, sym, Bool, false, ◌||◌, ◌↔◌, List, [], ◌∷◌, ◌++◌, Option, none, some, In,
  inl, inr, arith, subst, map_some, some_inj, In-append, append-In,
}
use klaayguard.Text.{Text, codes}
use klaayguard.Json.{Value}
use klaayguard.Disk.{FlatDev}
use klaayguard.Disk.Lsblk.{
  field, children, is_crypt, flat_dev, walk, walk_each, both, flatten, block_devices, parse_lsblk,
  depth,
}
use klaayguard.Disk.Tree.{flatten-enough_fuel}

-- The nodes of the tree, each with its ancestors.
pub data Node (parsed : Value) : Value → List Value → Type 0 where
  root : {dev : Value} → In dev (block_devices parsed) → Node parsed dev []
  child :
      {node c : Value} {above : List Value}
      → Node parsed node above
      → In c (children node)
      → Node parsed c (node ∷ above)

abbrev pub crypt_above : List Value → Bool
crypt_above [] = false
crypt_above (node ∷ above) = crypt_above above || is_crypt node

abbrev pub fstype_above : List Value → Text
fstype_above [] = []
fstype_above (node ∷ above) = field node (codes "fstype")

-- the device that stands for a node
abbrev pub seen : Value → List Value → FlatDev
seen node above = flat_dev node (crypt_above above) (fstype_above above)

abbrev walk_at : ℕ → List Value → Value → Option (List FlatDev)
walk_at n above node = walk n node (crypt_above above) (fstype_above above)

both-some :
    (a b : Option (List FlatDev)) (ds : List FlatDev)
    → both a b ≡ some ds
    → (xs ys : List FlatDev) × (a ≡ some xs) × (b ≡ some ys) × (ds ≡ xs ++ ys)
both-some (some xs) (some ys) ds h = (xs, ys, refl, refl, some_inj (sym h))
both-some (some xs) none ds h = absurd (cc (h))
both-some none b ds h = absurd (cc (h))

module _ (f : Value → Option (List FlatDev)) where
  walk_each-only :
      (cs : List Value) (ds : List FlatDev) (d : FlatDev)
      → walk_each f cs ≡ some ds
      → In d ds
      → (c : Value) × In c cs × ((es : List FlatDev) × (f c ≡ some es) × In d es)
  walk_each-only [] ds d h i = absurd (subst (λ l. In d l) (sym (some_inj h)) i)
  walk_each-only (c ∷ cs) ds d h i =
      let (xs, ys, fx, fy, e) = both-some (f c) (walk_each f cs) ds h in
      elim (In-append d xs ys (subst (λ l. In d l) e i)) [
        | inl l ↦ (c, inl refl, (xs, fx, l))
        | inr r ↦ let (c', m, rest) = walk_each-only cs ys d fy r in (c', inr m, rest)
      ]

  walk_each-all :
      (cs : List Value) (ds : List FlatDev) (c : Value)
      → walk_each f cs ≡ some ds
      → In c cs
      → (es : List FlatDev) × (f c ≡ some es) × ((d : FlatDev) → In d es → In d ds)
  walk_each-all [] ds c h i = absurd i
  walk_each-all (b ∷ cs) ds c h (inl q) =
      let (xs, ys, fx, fy, e) = both-some (f b) (walk_each f cs) ds h in
      (xs, rw q fx, λ d i. subst (λ l. In d l) (sym e) (append-In d xs ys (inl i)))
  walk_each-all (b ∷ cs) ds c h (inr m) =
      let (xs, ys, fx, fy, e) = both-some (f b) (walk_each f cs) ds h in
      let (es, fe, sub) = walk_each-all cs ys c fy m in
      (es, fe, λ d i. subst (λ l. In d l) (sym e) (append-In d xs ys (inr (sub d i))))

map_some-some :
    (d : FlatDev) (o : Option (List FlatDev)) (ds : List FlatDev)
    → map_some (λ (below : List FlatDev). d ∷ below) o ≡ some ds
    → (below : List FlatDev) × (o ≡ some below) × (ds ≡ d ∷ below)
map_some-some d none ds h = absurd (cc (h))
map_some-some d (some below) ds h = (below, refl, some_inj (sym h))

-- A walk that ends writes the node, then what the walks of its children write.
walk_at-below :
    (n : ℕ) (above : List Value) (node : Value) (ds : List FlatDev)
    → walk_at (suc n) above node ≡ some ds
    → (below : List FlatDev) × (walk_each (walk_at n (node ∷ above)) (children node) ≡ some below)
      × (ds ≡ seen node above ∷ below)
unfolding walk
walk_at-below n above node ds h = map_some-some (seen node above) _ ds h

walk_at-no_fuel :
    (above : List Value) (node : Value) (ds : List FlatDev) → walk_at zero above node ≡ some ds → ⊥
unfolding walk
walk_at-no_fuel above node ds h = cc (h)

module _ (parsed : Value) where
  abbrev pub Visited : FlatDev → Type 0
  Visited d = (node : Value) × (above : List Value) × Node parsed node above × (d ≡ seen node above)

  walk_at-Visited :
      (n : ℕ) (node : Value) (above : List Value) (ds : List FlatDev) (d : FlatDev)
      → Node parsed node above
      → walk_at n above node ≡ some ds
      → In d ds
      → Visited d
  walk_at-Visited zero node above ds d v h i = absurd (walk_at-no_fuel above node ds h)
  walk_at-Visited (suc n) node above ds d v h i =
      let (below, hb, e) = walk_at-below n above node ds h in
      elim (subst (λ l. In d l) e i) [
        | inl q ↦ (node, above, v, q)
        | inr r ↦
            let (c, m, (es, fe, ie)) = walk_each-only _ (children node) below d hb r in
            walk_at-Visited n c (node ∷ above) es d (child v m) fe ie
      ]

  module _ (fuel : ℕ) (ds : List FlatDev) (ends : flatten fuel parsed ≡ some ds) where
    -- the walk of a node ended, and what it wrote is among the devices
    abbrev Covered : Value → List Value → Type 0
    Covered node above =
        (n : ℕ) × (es : List FlatDev) × (walk_at n above node ≡ some es)
        × ((d : FlatDev) → In d es → In d ds)

    Covered-child :
        (n : ℕ) (node c : Value) (above : List Value) (es : List FlatDev)
        → In c (children node)
        → walk_at n above node ≡ some es
        → ((d : FlatDev) → In d es → In d ds)
        → Covered c (node ∷ above)
    Covered-child zero node c above es m h sub = absurd (walk_at-no_fuel above node es h)
    Covered-child (suc n) node c above es m h sub =
        let (below, hb, e) = walk_at-below n above node es h in
        let (fs, fe, inner) = walk_each-all _ (children node) below c hb m in
        (n, fs, fe, λ d i. sub d (subst (λ l. In d l) (sym e) (inr (inner d i))))

    Node-Covered : (node : Value) (above : List Value) → Node parsed node above → Covered node above
    Node-Covered node above (root m) =
        let (es, fe, sub) = walk_each-all _ (block_devices parsed) ds node ends m in
        (fuel, es, fe, sub)
    Node-Covered node above (child v m) =
        let (n, es, fe, sub) = Node-Covered _ _ v in Covered-child n _ node _ es m fe sub

    covered-seen :
        (n : ℕ) (node : Value) (above : List Value) (es : List FlatDev)
        → walk_at n above node ≡ some es
        → ((d : FlatDev) → In d es → In d ds)
        → In (seen node above) ds
    covered-seen zero node above es h sub = absurd (walk_at-no_fuel above node es h)
    covered-seen (suc n) node above es h sub =
        let (below, hb, e) = walk_at-below n above node es h in
        sub (seen node above) (subst (λ l. In (seen node above) l) (sym e) (inl refl))

  -- The devices are those of the nodes: each device is what is seen of a node, and each node is seen.
  pub parse_lsblk-Visited : (d : FlatDev) → In d (parse_lsblk (some parsed)) ↔ Visited d
  parse_lsblk-Visited d = (only, all_nodes)
    where
      ends : flatten (depth parsed) parsed ≡ some (parse_lsblk (some parsed))
      ends = flatten-enough_fuel parsed (depth parsed) (omega arith)

      only : In d (parse_lsblk (some parsed)) → Visited d
      only i =
          let (c, m, (es, fe, ie)) = walk_each-only _ (block_devices parsed) _ d ends i in
          walk_at-Visited (depth parsed) c [] es d (root m) fe ie

      all_nodes : Visited d → In d (parse_lsblk (some parsed))
      all_nodes (node, above, v, e) =
          let (n, es, fe, sub) = Node-Covered (depth parsed) _ ends node above v in
          rw e (covered-seen (depth parsed) _ ends n node above es fe sub)
