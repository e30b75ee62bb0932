-- ===== src/Device/Stable.antt =====
-- src-tauri/src/lib.rs: `get_device_identity_internal` over the life of a process and the next one.
use klaayguard.Prelude.{
  ◌≡◌, ◌≢◌, refl, false, List, [], ◌∷◌, Option, none, some, sym, ◌∙◌, ℕ, ap, subst, unwrap_or,
}
use klaayguard.Text.{Text, Result, ok, err}
use klaayguard.Session.{AppState}
use klaayguard.Credentials.{
  Keyring, IsKeyring, Faults, State, load, save_device_identity, save_token, CredentialStore,
  forget_store, keyring_get, file_load, file_load_at,
}
use klaayguard.Credentials.Store.{save_token-load}
use klaayguard.Device.{
  Host, Resolved, kept, settle, derive, from_store, get_device_identity, resolve,
}

module _ (k : Keyring) (law : IsKeyring k) (hmac : Text → List ℕ) where
  forget-load :
      (f g : Faults) (v : Text) (s s' : State k)
      → v ≢ []
      → f.remove ≡ false
      → g.read ≡ false
      → g.data_dir ≡ f.data_dir
      → g.locked ≡ f.locked
      → (r : Result CredentialStore × State k) → save_token k f v s ≡ r
      → forget_store k r ≡ (ok tt, s')
      → load k g s' ≡ ok (some v)
  forget-load f g v s s' ne rm rd e lk (ok c, t) q h =
      let same : t ≡ s' = ap (λ x. x.1) h in
      subst (λ x. load k g x ≡ ok (some v)) same (save_token-load k law f g v s q ne rm rd e lk)
  forget-load f g v s s' ne rm rd e lk (err m, t) q h = absurd (cc h)

  save_device_identity-load :
      (f g : Faults) (v : Text) (s s' : State k)
      → save_device_identity k f v s ≡ (ok tt, s')
      → v ≢ []
      → f.remove ≡ false
      → g.read ≡ false
      → g.data_dir ≡ f.data_dir
      → g.locked ≡ f.locked
      → load k g s' ≡ ok (some v)
  unfolding save_device_identity
  save_device_identity-load f g v s s' h ne rm rd e lk =
      forget-load f g v s s' ne rm rd e lk (save_token k f v s) refl h

  -- what is cached is the answer, and the next load gives it
  abbrev Remembered : Faults → Text → Resolved k → Type 0
  Remembered g id r = (r.result ≡ ok id) × (load k g r.store ≡ ok (some id))

  kept-Remembered :
      (f g : Faults) (app : AppState) (v id : Text) (s : State k)
      → id ≢ []
      → f.remove ≡ false
      → g.read ≡ false
      → g.data_dir ≡ f.data_dir
      → g.locked ≡ f.locked
      → app.device_identity ≡ none
      → (r : Result (Unit {0}) × State k) → save_device_identity k f v s ≡ r
      → (kept k app v r).app.device_identity ≡ some id
      → Remembered g id (kept k app v r)
  kept-Remembered f g app v id s ne rm rd e lk fresh (ok _, t) q h =
      let same : v ≡ id = ap (λ o. unwrap_or o []) h in
      let solid : v ≢ [] = λ z. ne (sym same ∙ z) in
      (
        ap ok same,
        save_device_identity-load f g v s t q solid rm rd e lk ∙ ap (λ x. ok (some x)) same,
      )
  kept-Remembered f g app v id s ne rm rd e lk fresh (err m, t) q h = absurd (cc (fresh, h))

  settle-Remembered :
      (f g : Faults) (app : AppState) (v : Result Text) (id : Text) (s : State k)
      → id ≢ []
      → f.remove ≡ false
      → g.read ≡ false
      → g.data_dir ≡ f.data_dir
      → g.locked ≡ f.locked
      → app.device_identity ≡ none
      → (settle k f app s v).app.device_identity ≡ some id
      → Remembered g id (settle k f app s v)
  settle-Remembered f g app (ok v) id s ne rm rd e lk fresh h =
      kept-Remembered f g app v id s ne rm rd e lk fresh (save_device_identity k f v s) refl h
  settle-Remembered f g app (err m) id s ne rm rd e lk fresh h = absurd (cc (fresh, h))

  -- the two processes read the store alike
  load-alike :
      (f g : Faults) (s : State k)
      → f.read ≡ false
      → g.read ≡ false
      → g.data_dir ≡ f.data_dir
      → g.locked ≡ f.locked
      → load k g s ≡ load k f s
  unfolding load file_load file_load_at keyring_get
  load-alike f g s a b e lk = rw (a, b, e, lk) refl

  from_store-Remembered :
      (f g : Faults) (app : AppState) (id : Text) (s : State k) (h : Host)
      → id ≢ []
      → f.remove ≡ false
      → f.read ≡ false
      → g.read ≡ false
      → g.data_dir ≡ f.data_dir
      → g.locked ≡ f.locked
      → app.device_identity ≡ none
      → (r : Result (Option Text)) → load k f s ≡ r
      → (from_store k hmac f app s h r).app.device_identity ≡ some id
      → Remembered g id (from_store k hmac f app s h r)
  unfolding derive
  from_store-Remembered f g app id s h ne rm fr rd e lk fresh (ok (some (c ∷ t))) q h' =
      let same : (c ∷ t) ≡ id = ap (λ o. unwrap_or o []) h' in
      (ap ok same, load-alike f g s fr rd e lk ∙ (q ∙ ap (λ x. ok (some x)) same))
  from_store-Remembered f g app id s h ne rm fr rd e lk fresh (ok (some [])) q h' =
      settle-Remembered f g app _ id s ne rm rd e lk fresh h'
  from_store-Remembered f g app id s h ne rm fr rd e lk fresh (ok none) q h' =
      settle-Remembered f g app _ id s ne rm rd e lk fresh h'
  from_store-Remembered f g app id s h ne rm fr rd e lk fresh (err m) q h' =
      settle-Remembered f g app _ id s ne rm rd e lk fresh h'

  found_again :
      (g : Faults) (app : AppState) (id : Text) (s : State k) (h : Host)
      → id ≢ []
      → load k g s ≡ ok (some id)
      → app.device_identity ≡ none
      → (get_device_identity k hmac g app s h).result ≡ ok id
  unfolding get_device_identity
  found_again g app [] s h ne l fresh = absurd (ne refl)
  found_again g app (c ∷ t) s h ne l fresh =
      ap (λ o. (resolve k hmac g app s h o).result) fresh
      ∙ ap (λ r. (from_store k hmac g app s h r).result) l

  -- Once a process has cached the identity `id`, which is the one that it answered, a later process that
  -- starts with no cache answers `id` again, whatever serial and machine id the host shows it then. The
  -- conditions: the keyring does what its crate documents and is as accessible to the second process as to
  -- the first, the fallback file can be removed and read, the data directory is the same, and `id` is not
  -- the empty text.
  pub get_device_identity-stable :
      (f g : Faults) (app app' : AppState) (id : Text) (s : State k) (h h' : Host)
      → app.device_identity ≡ none
      → app'.device_identity ≡ none
      → (get_device_identity k hmac f app s h).app.device_identity ≡ some id
      → id ≢ []
      → f.remove ≡ false
      → f.read ≡ false
      → g.read ≡ false
      → g.data_dir ≡ f.data_dir
      → g.locked ≡ f.locked
      → ((get_device_identity k hmac f app s h).result ≡ ok id)
        × ((get_device_identity k hmac g app'
              (get_device_identity k hmac f app s h).store
              h').result
            ≡ ok id)
  get_device_identity-stable f g app app' id s h h' fresh fresh' cached ne rm fr rd e lk =
      let start : get_device_identity k hmac f app s h ≡ from_store k hmac f app s h (load k f s) =
        unfold get_device_identity in ap (resolve k hmac f app s h) fresh in
      let (answer, stored) : Remembered g id (get_device_identity k hmac f app s h) =
        subst (Remembered g id) (sym start) (
          from_store-Remembered f g app id s h ne rm fr rd e lk fresh (load k f s) refl
            (ap (λ r. r.app.device_identity) (sym start) ∙ cached)) in
      (answer, found_again g app' id _ h' ne stored fresh')
