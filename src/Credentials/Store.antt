-- ===== src/Credentials/Store.antt =====
-- The two stores together: what was saved is what is loaded, and what a sign out leaves behind.
use klaayguard.Prelude.{
  ◌≡◌, ◌≢◌, refl, true, false, Option, none, some, arith, [], ◌∷◌, inl, inr, sym, ◌∙◌, Bool-cases,
}
use klaayguard.Text.{Text, Result, ok, err}
use klaayguard.Credentials.{
  found, Deletion, deleted, nothing_there, delete_error, Keyring, IsKeyring, Faults, Disk,
  file_save, file_save_at, file_load, file_load_at, file_delete, file_delete_at, CredentialStore,
  keyring, State, keyring_set, keyring_get, save_token, load, delete_token, refused, saved,
  deletion, removal,
}

-- a file that was removed, or a host with no place for one, has nothing to load
file_load-delete :
    (f g : Faults) (d : Disk)
    → f.remove ≡ false
    → g.data_dir ≡ f.data_dir
    → file_load g (file_delete f d) ≡ none
unfolding file_load file_load_at file_delete file_delete_at
file_load-delete f g d r e = ground arith

file_save-load :
    (f g : Faults) (v : Text) (d d' : Disk)
    → file_save f v d ≡ (ok tt, d')
    → v ≢ []
    → g.read ≡ false
    → g.data_dir ≡ f.data_dir
    → file_load g d' ≡ some v
unfolding file_save file_save_at file_load file_load_at
file_save-load f g [] d d' h ne r e = absurd (ne refl)
file_save-load f g (c ∷ v) d d' h ne r e = ground arith

module _ (k : Keyring) (law : IsKeyring k) where
  keyring_set-get :
      (f g : Faults) (v : Text) (s t : k.Store)
      → g.locked ≡ f.locked
      → keyring_set k f v s ≡ ok t
      → keyring_get k g t ≡ ok (some v)
  unfolding keyring_set keyring_get
  keyring_set-get f g v s t e h = ground (arith, law.set_get v s t, law.set_opens v s t)

  saved-load :
      (f g : Faults) (v : Text) (s : State k) {c : CredentialStore} (s' : State k)
      → v ≢ []
      → f.remove ≡ false
      → g.read ≡ false
      → g.data_dir ≡ f.data_dir
      → g.locked ≡ f.locked
      → (r : Result k.Store) → keyring_set k f v s.entry ≡ r
      → saved k f v s r ≡ (ok c, s')
      → load k g s' ≡ ok (some v)
  unfolding load
  saved-load f g v s s' ne rm rd e lk (ok t) q h =
      ground (arith, file_load-delete f g s.disk, keyring_set-get f g v s.entry t)
  saved-load f g v s s' ne rm rd e lk (err m) q h =
      ground (arith, file_save-load f g v s.disk s'.disk)

  -- A credential that was saved, in the keyring or in the file, is what the next load gives, if the
  -- fallback file can be removed and read, the credential is not the empty text, and the keyring is as
  -- accessible at the load as at the save.
  pub save_token-load :
      (f g : Faults) (v : Text) (s : State k) {c : CredentialStore} {s' : State k}
      → save_token k f v s ≡ (ok c, s')
      → v ≢ []
      → f.remove ≡ false
      → g.read ≡ false
      → g.data_dir ≡ f.data_dir
      → g.locked ≡ f.locked
      → load k g s' ≡ ok (some v)
  unfolding save_token
  save_token-load f g v s {s'} h ne r rd e lk =
      saved-load f g v s s' ne r rd e lk (keyring_set k f v s.entry) refl h

  -- If the fallback file cannot be removed, a save that reaches the keyring leaves a stale file in
  -- front of it: the next load gives the old value of the file, not the one that was saved.
  pub save_token-stale :
      (f g : Faults) (v w : Text) (s : State k) {t : k.Store}
      → keyring_set k f v s.entry ≡ ok t
      → s.disk.file ≡ some w
      → w ≢ []
      → f.remove ≡ true
      → g.read ≡ false
      → g.data_dir ≡ false
      → ((save_token k f v s).0 ≡ ok keyring) × (load k g (save_token k f v s).1 ≡ ok (some w))
  unfolding save_token load file_delete file_delete_at file_load file_load_at
  save_token-stale f g v [] s q h ne r rd e = absurd (ne refl)
  save_token-stale f g v (c ∷ w) s q h ne r rd e = ground arith

  -- A sign out is honest: an answer with no error means that no token can be loaded, and an error
  -- that one can.
  abbrev pub Honest : Faults → Result (Unit {0}) × State k → Type 0
  Honest g (ok _, s) = (v : Text) → load k g s ≢ ok (some v)
  Honest g (err e, s) = (v : Text) × (load k g s ≡ ok (some v))

  -- the next load reads the keyring alone
  load-keyring :
      (g : Faults) (s : State k) → file_load g s.disk ≡ none → load k g s ≡ keyring_get k g s.entry
  unfolding load
  load-keyring g s h = rw h

  refused-Honest :
      (g : Faults) (s : State k)
      → file_load g s.disk ≡ none
      → (r : Result (Option Text)) → keyring_get k g s.entry ≡ r
      → Honest g (refused k r, s)
  refused-Honest g s h (ok (some v)) q = (v, load-keyring g s h ∙ q)
  refused-Honest g s h (ok none) q = λ v l. cc (load-keyring g s h)
  refused-Honest g s h (err e) q = λ v l. cc (load-keyring g s h)

  not_found :
      (g : Faults) (s : k.Store)
      → ((v : Text) → k.get_password s ≢ found v)
      → (v : Text) → keyring_get k g s ≢ ok (some v)
  unfolding keyring_get
  not_found g s h v = ground (arith, h v)

  no_entry_opens :
      (g : Faults) (s : k.Store) → k.opens s ≡ false → (v : Text) → keyring_get k g s ≢ ok (some v)
  unfolding keyring_get
  no_entry_opens g s h v = ground arith

  removal-deleted :
      (f : Faults) (s t : k.Store) → removal k f s ≡ deleted t → k.delete_credential s ≡ deleted t
  removal-deleted f s t h = elim (Bool-cases f.locked) [
    | inl e ↦ absurd (cc (rw e at h))
    | inr e ↦ rw e at h
  ]

  removal-nothing :
      (f : Faults) (s : k.Store)
      → removal k f s ≡ nothing_there
      → k.delete_credential s ≡ nothing_there
  removal-nothing f s h = elim (Bool-cases f.locked) [
    | inl e ↦ absurd (cc (rw e at h))
    | inr e ↦ rw e at h
  ]

  -- access alike, the keyring answers alike
  keyring_get-alike :
      (f g : Faults) (s : k.Store) → g.locked ≡ f.locked → keyring_get k g s ≡ keyring_get k f s
  unfolding keyring_get
  keyring_get-alike f g s e = rw e refl

  deletion-Honest :
      (f g : Faults) (s : State k)
      → file_load g s.disk ≡ none
      → g.locked ≡ f.locked
      → (r : Deletion k.Store) → removal k f s.entry ≡ r
      → Honest g (deletion k f s r)
  deletion-Honest f g s h e (deleted t) q = λ v l.
      not_found g t (law.deleted_get s.entry t (removal-deleted f s.entry t q)) v
        (sym (load-keyring g (record s { entry = t }) h) ∙ l)
  deletion-Honest f g s h e nothing_there q = λ v l.
      not_found g s.entry (law.nothing_get s.entry (removal-nothing f s.entry q)) v
        (sym (load-keyring g s h) ∙ l)
  deletion-Honest f g s h e (delete_error m) q =
      refused-Honest g s h (keyring_get k f s.entry) (keyring_get-alike f g s.entry e)

  -- After a sign out, with a fallback file that can be removed: the call reports an error exactly
  -- if the next load still gives a token, where that load finds the keyring as accessible as the sign
  -- out did.
  pub delete_token-Honest :
      (f g : Faults) (s : State k)
      → f.remove ≡ false
      → g.data_dir ≡ f.data_dir
      → g.locked ≡ f.locked
      → Honest g (delete_token k f s)
  delete_token-Honest f g s r e lk =
      let s' = record s { disk = file_delete f s.disk } in
      let gone = file_load-delete f g s.disk r e in
      elim (Bool-cases (k.opens s.entry)) [
        | inl o ↦
            unfold delete_token in rw o (deletion-Honest f g s' gone lk (removal k f s.entry) refl)
        | inr o ↦
            unfold delete_token in
            rw o (λ v l. no_entry_opens g s'.entry o v (sym (load-keyring g s' gone) ∙ l))
      ]

  -- A sign out that meets the keyring locked is not heard of it: it reports no error, and once the
  -- keyring is unlocked the next load gives the token that it held, if the fallback file was removed.
  pub delete_token-locked :
      (f g : Faults) (s : State k) (v : Text)
      → f.locked ≡ true
      → g.locked ≡ false
      → k.opens s.entry ≡ true
      → k.get_password s.entry ≡ found v
      → f.remove ≡ false
      → g.data_dir ≡ f.data_dir
      → ((delete_token k f s).0 ≡ ok tt) × (load k g (delete_token k f s).1 ≡ ok (some v))
  unfolding delete_token keyring_get load
  delete_token-locked f g s v lk un o p r e =
      (simp (lk, o), simp (lk, o, un, p, file_load-delete f g s.disk r e))
