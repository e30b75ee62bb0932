-- ===== src/Update/Gate.antt =====
-- src-tauri/src/lib.rs: what is never installed.
use klaayguard.Prelude.{
  ℕ, ◌≡◌, refl, inl, inr, Bool, true, false, List, [], ◌∷◌, Option, none, some, and_then, find, In,
  Bool-cases, ap, sym, unwrap_or, subst,
}
use klaayguard.Text.{Text, ok, err}
use klaayguard.Http.{is_success}
use klaayguard.Update.{
  ReleaseAsset, Platform, linux, windows, macos, Reply, reply, no_reply, select_asset,
  select_appimage_asset, select_windows_installer_asset, select_dmg_asset, is_appimage,
  is_installer, is_dmg, with_dmg, windows_arch_tag, host_arch_tags, sha256_matches, verified,
  download_and_install_update, update_requires_checksum,
}

find-In :
    (p : ReleaseAsset → Bool) (xs : List ReleaseAsset) (a : ReleaseAsset)
    → find p xs ≡ some a
    → In a xs × (p a ≡ true)
find-In p [] a h = absurd (cc h)
find-In p (x ∷ xs) a h = elim (Bool-cases (p x)) [
  | inl e ↦
      let same : x ≡ a = ap (λ o. unwrap_or o x) (rw e at h) in
      (inl (sym same), subst (λ y. p y ≡ true) same e)
  | inr e ↦ let (m, q) = find-In p xs a (rw e at h) in (inr m, q)
]

-- The file name, or on macOS the label where there is none, is that of this host's artifact.
abbrev pub Fits : Platform → Text → Bool → ReleaseAsset → Type 0
Fits linux arch own_appimage a = (own_appimage ≡ true) × (is_appimage arch a ≡ true)
Fits windows arch own_appimage a =
    (tag : Text) × (windows_arch_tag arch ≡ some tag) × (is_installer tag a ≡ true)
Fits macos arch own_appimage a =
    (tags : Text × Text) × (host_arch_tags arch ≡ some tags) × (is_dmg tags.0 tags.1 a ≡ true)

pub select_asset-Fits :
    (p : Platform) (arch : Text) (own : Bool) (assets : List ReleaseAsset) (a : ReleaseAsset)
    → select_asset p arch own assets ≡ some a
    → In a assets × Fits p arch own a
unfolding select_appimage_asset select_windows_installer_asset select_dmg_asset
select_asset-Fits linux arch true assets a h =
    let (m, q) = find-In (is_appimage arch) assets a h in (m, (refl, q))
select_asset-Fits linux arch false assets a h = absurd (cc h)
select_asset-Fits windows arch own assets a h = tagged (windows_arch_tag arch) refl h
  where
    tagged :
        (o : Option Text)
        → windows_arch_tag arch ≡ o
        → and_then o (select_windows_installer_asset assets) ≡ some a
        → In a assets × Fits windows arch own a
    tagged none e q = absurd (cc q)
    tagged (some tag) e q = let (m, f) = find-In (is_installer tag) assets a q in (m, (tag, e, f))
select_asset-Fits macos arch own assets a h = tagged (host_arch_tags arch) refl h
  where
    tagged :
        (o : Option (Text × Text))
        → host_arch_tags arch ≡ o
        → with_dmg assets o ≡ some a
        → In a assets × Fits macos arch own a
    tagged none e q = absurd (cc q)
    tagged (some (tag, label)) e q =
        let (m, f) = find-In (is_dmg tag label) assets a q in (m, ((tag, label), e, f))

module _ (sha256 : List ℕ → List ℕ) where
  -- The bytes have the hash that the release names; on macOS, which checks a signature next, it may
  -- name none.
  abbrev pub Checked : Platform → Option Text → List ℕ → Type 0
  Checked p (some expected) bytes = sha256_matches sha256 bytes expected ≡ true
  Checked p none bytes = p ≡ macos

  verified-Checked :
      (p : Platform) (expected : Option Text) (got bytes : List ℕ)
      → verified sha256 p expected got ≡ ok bytes
      → (got ≡ bytes) × Checked p expected bytes
  unfolding update_requires_checksum
  verified-Checked p (some expected) got bytes h =
      elim (Bool-cases (sha256_matches sha256 got expected)) [
        | inl e ↦
            let same : got ≡ bytes = cc (rw e at h) in
            (same, subst (λ b. sha256_matches sha256 b expected ≡ true) same e)
        | inr e ↦ absurd (cc (rw e at h))
      ]
  verified-Checked macos none got bytes h = (cc h, refl)
  verified-Checked linux none got bytes h = absurd (cc h)
  verified-Checked windows none got bytes h = absurd (cc h)

  -- The bytes are the body of a successful reply, and checked.
  abbrev pub Fetched : Platform → Option Text → Reply (List ℕ) → List ℕ → Type 0
  Fetched p expected r bytes =
      (status : ℕ) × (r ≡ reply status (ok bytes))
      × (is_success status ≡ true)
      × Checked p expected bytes

  pub download-Fetched :
      (p : Platform) (expected : Option Text) (r : Reply (List ℕ)) (bytes : List ℕ)
      → download_and_install_update sha256 p expected r ≡ ok bytes
      → Fetched p expected r bytes
  unfolding download_and_install_update
  download-Fetched p expected (no_reply e) bytes h = absurd (cc h)
  download-Fetched p expected (reply status (err m)) bytes h =
      elim (Bool-cases (is_success status)) [
        | inl e ↦ absurd (cc (rw e at h))
        | inr e ↦ absurd (cc (rw e at h))
      ]
  download-Fetched p expected (reply status (ok got)) bytes h =
      elim (Bool-cases (is_success status)) [
        | inl e ↦
            let (same, c) = verified-Checked p expected got bytes (rw e at h) in
            (status, ap (λ b. reply status (ok b)) same, e, c)
        | inr e ↦ absurd (cc (rw e at h))
      ]
