-- ===== src/Update/Offer.antt =====
-- src-tauri/src/lib.rs: what `check_for_updates_internal` offers, and the whole of an update from the check to
-- the installer of the platform, which is a parameter here.
use klaayguard.Prelude.{
  ℕ, ◌≡◌, refl, ap, Bool, true, List, Option, none, some, Bool-cases, In, inl, inr, ◌⊎◌, false, sym,
  unwrap_or, map_some,
}
use klaayguard.Text.{Text, Result, ok, err}
use klaayguard.Http.{is_success}
use klaayguard.Update.{
  ReleaseAsset, ReleaseInfo, SelectedUpdate, Agent, Reply, no_reply, reply, selected, select_asset,
  version_of, offered, check_for_updates, download_and_install_update,
}
use klaayguard.Update.Gate.{Fits, select_asset-Fits, Fetched, download-Fetched}

module _ {V : Type 0} (semver : Text → Option V) (newer : V → V → Bool) where
  -- Why an update is offered: it is an asset for this host of the latest release, which is newer.
  pub record Offers (agent : Agent) (latest : Reply ReleaseInfo) (u : SelectedUpdate) : Type 0 where
    pub status : ℕ
    pub release : ReleaseInfo
    pub announced : latest ≡ reply status (ok release)
    pub success : is_success status ≡ true
    pub current : V
    pub offer : V
    pub current_parsed : version_of semver agent.current_version ≡ some current
    pub offer_parsed : version_of semver release.version ≡ some offer
    pub is_newer : newer offer current ≡ true
    pub asset : ReleaseAsset
    pub of_release : In asset release.assets
    pub fits : Fits agent.platform agent.arch agent.own_appimage asset
    pub id : u.asset_id ≡ asset.id
    pub hash : u.expected ≡ asset.sha256

  -- Why there is nothing to install: the release is not newer, or has no asset for this host.
  pub record UpToDate (agent : Agent) (latest : Reply ReleaseInfo) : Type 0 where
    pub status : ℕ
    pub release : ReleaseInfo
    pub announced : latest ≡ reply status (ok release)
    pub success : is_success status ≡ true
    pub current : V
    pub offer : V
    pub current_parsed : version_of semver agent.current_version ≡ some current
    pub offer_parsed : version_of semver release.version ≡ some offer
    pub reason :
        (newer offer current ≡ false)
        ⊎ (select_asset agent.platform agent.arch agent.own_appimage release.assets ≡ none)

  module _ (sha256 : List ℕ → List ℕ) (agent : Agent) where
    module _ (release : ReleaseInfo) (status : ℕ) (latest : Reply ReleaseInfo)
        (announced : latest ≡ reply status (ok release)) (success : is_success status ≡ true)
        (u : SelectedUpdate) where
      chosen-Offers :
          (c r : V)
          → version_of semver agent.current_version ≡ some c
          → version_of semver release.version ≡ some r
          → newer r c ≡ true
          → (o : Option ReleaseAsset)
          → select_asset agent.platform agent.arch agent.own_appimage release.assets ≡ o
          → selected o ≡ some u
          → Offers agent latest u
      chosen-Offers c r cq rq e none q i = absurd (cc i)
      chosen-Offers c r cq rq e (some a) q i =
          let (m, f) =
            select_asset-Fits agent.platform agent.arch agent.own_appimage release.assets a q in
          record {
            status = status;
            release = release;
            announced = announced;
            success = success;
            current = c;
            offer = r;
            current_parsed = cq;
            offer_parsed = rq;
            is_newer = e;
            asset = a;
            of_release = m;
            fits = f;
            id = ap (λ o. unwrap_or (map_some (λ v. v.asset_id) o) a.id) (sym i);
            hash = ap (λ o. unwrap_or (map_some (λ v. v.expected) o) a.sha256) (sym i);
          }

      offered-Offers :
          (c r : Option V)
          → version_of semver agent.current_version ≡ c
          → version_of semver release.version ≡ r
          → offered newer agent release c r ≡ ok (some u)
          → Offers agent latest u
      offered-Offers none r cq rq h = absurd (cc h)
      offered-Offers (some c) none cq rq h = absurd (cc h)
      offered-Offers (some c) (some r) cq rq h = elim (Bool-cases (newer r c)) [
        | inl e ↦ chosen-Offers c r cq rq e _ refl (cc (rw e at h))
        | inr e ↦ absurd (cc (rw e at h))
      ]

    check_for_updates-Offers :
        (latest : Reply ReleaseInfo) (u : SelectedUpdate)
        → check_for_updates sha256 semver newer agent latest ≡ ok (some u)
        → Offers agent latest u
    unfolding check_for_updates
    check_for_updates-Offers (no_reply e) u h = absurd (cc h)
    check_for_updates-Offers (reply status (err e)) u h = elim (Bool-cases (is_success status)) [
      | inl s ↦ absurd (cc (rw s at h))
      | inr s ↦ absurd (cc (rw s at h))
    ]
    check_for_updates-Offers (reply status (ok release)) u h =
        elim (Bool-cases (is_success status)) [
          | inl s ↦
              offered-Offers release status (reply status (ok release)) refl s u _ _ refl refl
                (rw s at h)
          | inr s ↦ absurd (cc (rw s at h))
        ]

    module _ (release : ReleaseInfo) (status : ℕ) (success : is_success status ≡ true) where
      selected-none : (o : Option ReleaseAsset) → selected o ≡ none → o ≡ none
      selected-none none h = refl
      selected-none (some a) h = absurd (cc h)

      offered-UpToDate :
          (c r : Option V)
          → version_of semver agent.current_version ≡ c
          → version_of semver release.version ≡ r
          → offered newer agent release c r ≡ ok none
          → UpToDate agent (reply status (ok release))
      offered-UpToDate none r cq rq h = absurd (cc h)
      offered-UpToDate (some c) none cq rq h = absurd (cc h)
      offered-UpToDate (some c) (some r) cq rq h = record {
        status = status;
        release = release;
        announced = refl;
        success = success;
        current = c;
        offer = r;
        current_parsed = cq;
        offer_parsed = rq;
        reason = elim (Bool-cases (newer r c)) [
          | inl e ↦ inr (selected-none _ (cc (rw e at h)))
          | inr e ↦ inl e
        ];
      }

    check_for_updates-UpToDate :
        (latest : Reply ReleaseInfo)
        → check_for_updates sha256 semver newer agent latest ≡ ok none
        → UpToDate agent latest
    unfolding check_for_updates
    check_for_updates-UpToDate (no_reply e) h = absurd (cc h)
    check_for_updates-UpToDate (reply status (err e)) h = elim (Bool-cases (is_success status)) [
      | inl s ↦ absurd (cc (rw s at h))
      | inr s ↦ absurd (cc (rw s at h))
    ]
    check_for_updates-UpToDate (reply status (ok release)) h =
        elim (Bool-cases (is_success status)) [
          | inl s ↦ offered-UpToDate release status s _ _ refl refl (rw s at h)
          | inr s ↦ absurd (cc (rw s at h))
        ]

-- How an update check goes: this build is not to be replaced; there is nothing to install; the check or the
-- download fails; or the installer has run.
pub data Course (A : Type 0) : Type 0 where
  skipped : Text → Course A
  up_to_date : Course A
  failed : Text → Course A
  ran : A → Course A

module _ (sha256 : List ℕ → List ℕ) {V : Type 0} (semver : Text → Option V) (newer : V → V → Bool)
    {A : Type 0} (installer : SelectedUpdate → List ℕ → A) where
  abbrev pub with_bytes : SelectedUpdate → Result (List ℕ) → Course A
  with_bytes u (ok bytes) = ran (installer u bytes)
  with_bytes u (err e) = failed e

  abbrev pub from_check : Agent → (ℕ → Reply (List ℕ)) → Result (Option SelectedUpdate) → Course A
  from_check agent download (ok (some u)) =
      with_bytes u
        (download_and_install_update sha256 agent.platform u.expected (download u.asset_id))
  from_check agent download (ok none) = up_to_date
  from_check agent download (err e) = failed e

  -- `run_update_check`, down to the installer
  unfoldable pub updated : Agent → Reply ReleaseInfo → (ℕ → Reply (List ℕ)) → Course A
  unfolding check_for_updates download_and_install_update
  updated agent latest download =
      from_check agent download (check_for_updates sha256 semver newer agent latest)

  module _ (agent : Agent) (latest : Reply ReleaseInfo) (download : ℕ → Reply (List ℕ))
      (P : Course A → Type 0) (fails : (m : Text) → P (failed m))
      (idle : UpToDate semver newer agent latest → P up_to_date)
      (installs : (u : SelectedUpdate) (bytes : List ℕ)
        → Offers semver newer agent latest u
        → Fetched sha256 agent.platform u.expected (download u.asset_id) bytes
        → P (ran (installer u bytes))) where
    bytes-ind :
        (u : SelectedUpdate) (r : Result (List ℕ))
        → Offers semver newer agent latest u
        → download_and_install_update sha256 agent.platform u.expected (download u.asset_id) ≡ r
        → P (with_bytes u r)
    bytes-ind u (err e) o q = fails e
    bytes-ind u (ok bytes) o q =
        installs u bytes o
          (download-Fetched sha256 agent.platform u.expected (download u.asset_id) bytes q)

    check-ind :
        (r : Result (Option SelectedUpdate))
        → check_for_updates sha256 semver newer agent latest ≡ r
        → P (from_check agent download r)
    check-ind (err e) q = fails e
    check-ind (ok none) q = idle (check_for_updates-UpToDate semver newer sha256 agent latest q)
    check-ind (ok (some u)) q =
        bytes-ind u _ (check_for_updates-Offers semver newer sha256 agent latest u q) refl

    -- What holds where the check or the download fails, where there is nothing to install, and of what the
    -- installer makes of an update that was offered and fetched, holds of an update check.
    pub updated-ind : P (updated agent latest download)
    unfolding updated
    updated-ind = check-ind (check_for_updates sha256 semver newer agent latest) refl
