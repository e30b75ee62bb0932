-- ===== src/Disk/Home.antt =====
-- src-tauri/src/lib.rs: the mount that the home directory lives on, and the rows as a whole.
use klaayguard.Prelude.{
  ◌≡◌, ◌≢◌, ◌≤◌, refl, sym, ◌∙◌, true, List, [], ◌∷◌, ◌++◌, Option, none, some, In, inl, inr, ◌⊎◌,
  arith, ap, filter, unwrap_or, Bool-cases, if◌then◌else◌, leb, In-filter, filter-In, subst,
}
use klaayguard.Text.{Text, codes, eq_text}
use klaayguard.Text.Laws.{eq_text_iff}
use klaayguard.Json.{Value, array}
use klaayguard.Text.Path.{path_starts_with}
use klaayguard.Device.{byte_len}
use klaayguard.ScreenLock.{Tri, unknown}
use klaayguard.Disk.{FlatDev, MountEntry}
use klaayguard.Disk.Lsblk.{parse_lsblk}
use klaayguard.Disk.Mounts.{parse_proc_mounts}
use klaayguard.Disk.Rows.{
  longest, determine, all_mountpoints, mount_of, home_encrypted, summary_row,
  build_disk_encryption_rows,
}
use klaayguard.Disk.Verdict.{Evidence, determine-Evidence}

-- The longest of the texts and of what was there before.
record Longest (m b : Text) (xs : List Text) : Type 0 where
  from : (m ≡ b) ⊎ In m xs
  least : byte_len b ≤ byte_len m
  bound : (x : Text) → In x xs → byte_len x ≤ byte_len m

Longest-cons :
    (m c b x : Text) (xs : List Text)
    → byte_len b ≤ byte_len c
    → byte_len x ≤ byte_len c
    → (c ≡ b) ⊎ (c ≡ x)
    → Longest m c xs
    → Longest m b (x ∷ xs)
Longest-cons m c b x xs l k o h = record {
  from = elim h.from [
    | inl e ↦ elim o [ inl q ↦ inl (e ∙ q) | inr q ↦ inr (inl (e ∙ q)) ]
    | inr i ↦ inr (inr i)
  ];
  least = omega (arith, h.least);
  bound = bounded;
}
  where
    bounded : (y : Text) → In y (x ∷ xs) → byte_len y ≤ byte_len m
    bounded y (inl e) = rw e (omega (arith, h.least))
    bounded y (inr i) = h.bound y i

longest-Longest :
    (b : Text) (xs : List Text) → (m : Text) × (longest (some b) xs ≡ some m) × Longest m b xs
longest-Longest b [] =
    (b, refl, record { from = inl refl; least = omega arith; bound = λ x i. absurd i })
longest-Longest b (x ∷ xs) = elim (Bool-cases (leb (byte_len b) (byte_len x))) [
  | inl e ↦
      let (m, q, h) = longest-Longest x xs in
      (m, rw e q, Longest-cons m x b x xs (ground arith) (omega arith) (inr refl) h)
  | inr e ↦
      let (m, q, h) = longest-Longest b xs in
      (m, rw e q, Longest-cons m b b x xs (omega arith) (ground arith) (inl refl) h)
]

-- The mount that a path lives on: the longest mountpoint that its components start with, or the path itself
-- where there is none.
pub data LivesOn (mountpoints : List Text) (path : Text) : Text → Type 0 where
  under :
      {mount : Text}
      → In mount mountpoints
      → path_starts_with path mount ≡ true
      → ((m : Text)
          → In m mountpoints
          → path_starts_with path m ≡ true
          → byte_len m ≤ byte_len mount)
      → LivesOn mountpoints path mount
  alone :
      ((m : Text) → In m mountpoints → path_starts_with path m ≡ true → ⊥)
      → LivesOn mountpoints path path

LivesOn-longest :
    (path : Text) (mountpoints held : List Text)
    → held ≡ filter (path_starts_with path) mountpoints
    → LivesOn mountpoints path (unwrap_or (longest none held) path)
LivesOn-longest path mountpoints [] h =
    alone
      (λ m i p. subst (λ l. In m l) (sym h) (filter-In (path_starts_with path) m mountpoints i p))
LivesOn-longest path mountpoints (b ∷ held) h =
    let (m, e, l) = longest-Longest b held in
    let member : In m (b ∷ held) = elim l.from [ inl q ↦ inl q | inr i ↦ inr i ] in
    let (i, p) = In-filter (path_starts_with path) m mountpoints (subst (λ xs. In m xs) h member) in
    rw e (
      under i p (λ x j q.
        bounded m l x
          (subst (λ xs. In x xs) (sym h) (filter-In (path_starts_with path) x mountpoints j q))))
  where
    bounded : (m : Text) → Longest m b held → (x : Text) → In x (b ∷ held) → byte_len x ≤ byte_len m
    bounded m l x (inl q) = rw q l.least
    bounded m l x (inr i) = l.bound x i

if_same : (a b : Text) (f : Text → Tri) → (if eq_text a b then f b else f a) ≡ f a
if_same a b f = elim (Bool-cases (eq_text a b)) [
  | inl e ↦ rw e (ap f (sym ((eq_text_iff a b).0 e)))
  | inr e ↦ rw e refl
]

module _ (devs : List FlatDev) (mounts : List MountEntry) where
  mount_of-LivesOn :
      (path : Text) → LivesOn (all_mountpoints devs mounts) path (mount_of devs mounts path)
  unfolding mount_of
  mount_of-LivesOn path = LivesOn-longest path (all_mountpoints devs mounts) _ refl

  -- A home on the root file system shares its verdict, which is the verdict of its mount all the same.
  home_encrypted-determine :
      (path : Text)
      → path ≢ []
      → home_encrypted devs mounts (some path) ≡ determine devs mounts (mount_of devs mounts path)
  unfolding home_encrypted
  home_encrypted-determine [] h = absurd (h refl)
  home_encrypted-determine (c ∷ path) h =
      if_same (mount_of devs mounts (c ∷ path)) (codes "/") (determine devs mounts)

module _ (parsed : Value) (mounts : List MountEntry) where
  abbrev devs : List FlatDev
  devs = parse_lsblk (some parsed)

  -- What the verdict for the home directory rests on.
  abbrev pub HomeEvidence : Option Text → Tri → Type 0
  HomeEvidence none verdict = verdict ≡ unknown
  HomeEvidence (some []) verdict = verdict ≡ unknown
  HomeEvidence (some (c ∷ path)) verdict =
      (mount : Text) × LivesOn (all_mountpoints devs mounts) (c ∷ path) mount
      × Evidence parsed mounts mount verdict

  home_encrypted-HomeEvidence :
      (home : Option Text) → HomeEvidence home (home_encrypted devs mounts home)
  home_encrypted-HomeEvidence none = unfold home_encrypted in refl
  home_encrypted-HomeEvidence (some []) = unfold home_encrypted in refl
  home_encrypted-HomeEvidence (some (c ∷ path)) = (
    mount_of devs mounts (c ∷ path),
    mount_of-LivesOn devs mounts (c ∷ path),
    rw (home_encrypted-determine devs mounts (c ∷ path) (λ e. cc (e)))
        (determine-Evidence parsed mounts (mount_of devs mounts (c ∷ path))),
  )

-- With a tree from `lsblk`, the rows end with a summary, and both of its verdicts have their evidence. The
-- root's is about `/`, the home's about the mount that it lives on; without a home it is "unknown". "yes"
-- has an ecryptfs mount there, or a device of the tree that is mounted there and is, or stands on, a dm-crypt
-- mapper. "no" has a device of the tree that is mounted there, with no mapper from it up to its root, and
-- neither an ecryptfs nor a ZFS mount there. "unknown" has no ecryptfs mount there, and a ZFS mount or no
-- device.
pub build_disk_encryption_rows-Evidence :
    (parsed : Value) (proc_mounts : Text) (home : Option Text)
    → (found : List Value) × (root at_home : Tri) × (mechanisms : List Text)
      × (build_disk_encryption_rows (some parsed) proc_mounts home
          ≡ array (found ++ (summary_row root at_home mechanisms ∷ [])))
      × Evidence parsed (parse_proc_mounts proc_mounts) (codes "/") root
      × HomeEvidence parsed (parse_proc_mounts proc_mounts) home at_home
unfolding build_disk_encryption_rows
build_disk_encryption_rows-Evidence parsed proc_mounts home = (
  _,
  _,
  _,
  _,
  refl,
  determine-Evidence parsed (parse_proc_mounts proc_mounts) (codes "/"),
  home_encrypted-HomeEvidence parsed (parse_proc_mounts proc_mounts) home,
)
