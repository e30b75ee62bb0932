-- ===== src/Lifecycle/Restart.antt =====
-- src-tauri/src/lib.rs: what a session is after a restart.
use klaayguard.Prelude.{
  ℕ, ◌≡◌, ◌≢◌, ◌⊎◌, inl, inr, refl, ◌∙◌, ap, Bool, true, false, List, [], Option, none, some, any,
  Bool-cases, is_some,
}
use klaayguard.Text.{Text, Result, ok, err}
use klaayguard.Session.{AppState, clear_session}
use klaayguard.Http.{Outcome}
use klaayguard.Credentials.{
  Keyring, IsKeyring, found, Faults, State, CredentialStore, save_token, load, delete_token,
}
use klaayguard.Credentials.Store.{Honest, save_token-load, delete_token-Honest, delete_token-locked}
use klaayguard.Label.{
  Identity, accepted, rejected, unknown, fetch_identity, adopt_unless_rejected, adopt_as,
}
use klaayguard.Cycle.{Env, notify_signin_needed, debounced}
use klaayguard.Autostart
use klaayguard.Autostart.{Process, Files}
use klaayguard.Autostart.RunKey.{Access}
use klaayguard.Lifecycle.{
  Event, sign_out_incomplete, notified, notifies, fresh, cleared_out, adopted, sign_out,
  adopt_token, taken_up, startup_blocking_work,
}

abbrev is_incomplete : Event → Bool
is_incomplete (sign_out_incomplete e) = true
is_incomplete _ = false

-- the sign out reported that the stored token is still there
abbrev pub incomplete : List Event → Bool
incomplete = any is_incomplete

abbrev is_notified : Event → Bool
is_notified notified = true
is_notified _ = false

-- the person was told so
abbrev pub told_person : List Event → Bool
told_person = any is_notified

notify_signin_needed-token :
    (e : Env) (s : AppState) → (notify_signin_needed e s).0.auth_token ≡ s.auth_token
unfolding notify_signin_needed
notify_signin_needed-token e s = elim (Bool-cases (is_some s.auth_token)) [
  | inl a ↦ rw a refl
  | inr a ↦ elim (Bool-cases (debounced e s)) [ inl b ↦ rw (a, b) refl | inr b ↦ rw (a, b) refl ]
]

module _ (k : Keyring) (g : Faults) (e : Env) (base : Text) where
  abbrev NotToken : (r : Result (Option Text)) → Type 0
  NotToken r = (v : Text) → r ≢ ok (some v)

  taken_up-none :
      (r : Result (Option Text)) → NotToken r → (taken_up k e (fresh base) r).0.auth_token ≡ none
  taken_up-none (ok (some v)) h = absurd (h v refl)
  taken_up-none (ok none) h = notify_signin_needed-token e (fresh base) ∙ unfold fresh in refl
  taken_up-none (err m) h = notify_signin_needed-token e (fresh base) ∙ unfold fresh in refl

  taken_up-some :
      (r : Result (Option Text)) (v : Text)
      → r ≡ ok (some v)
      → (taken_up k e (fresh base) r).0.auth_token ≡ some v
  taken_up-some r v h = rw h refl

module _ (k : Keyring) (law : IsKeyring k) (f g : Faults) (af : Autostart.Faults) (p : Process)
    (a : Access) (e : Env) (base : Text) (d : Files) (value : Option Text) where
  -- the token of the process that starts next, with this store
  abbrev pub next_token : State k → Option Text
  next_token st = (startup_blocking_work k g af p a e (fresh base) st d value).app.auth_token

  -- After the restart nobody is signed in, or the sign out said that somebody will be.
  abbrev pub Announced : Text → List Event → State k → Type 0
  Announced os events st =
      ((incomplete events ≡ false) × (next_token st ≡ none))
      ⊎ ((incomplete events ≡ true)
          × (told_person events ≡ notifies os)
          × ((v : Text) × (next_token st ≡ some v)))

  told-events :
      (os m : Text) (st : State k) (s : AppState)
      → told_person (cleared_out k os s (err m, st)).events ≡ notifies os
  told-events os m st s = elim (Bool-cases (notifies os)) [ inl b ↦ rw b refl | inr b ↦ rw b refl ]

  deleted-Announced :
      (os : Text) (s : AppState) (r : Result (Unit {0}) × State k)
      → Honest k law g r
      → Announced os (cleared_out k os s r).events r.1
  unfolding startup_blocking_work
  deleted-Announced os s (ok u, st) h = inl (refl, taken_up-none k g e base (load k g st) h)
  deleted-Announced os s (err m, st) (v, h) =
      inr (refl, told-events os m st s, (v, taken_up-some k g e base (load k g st) v h))

  -- A sign out ends the session at once. With a keyring that does what its crate documents and is as accessible
  -- at the next start as at the sign out, a fallback file that can be removed, and the same data directory later
  -- on, it is honest about the next process: either nobody is signed in there, or the sign out reported that the
  -- stored token remains, also to the person where the platform has a notification command, and it is taken up.
  pub sign_out-Announced :
      (os : Text) (s : AppState) (st : State k)
      → f.remove ≡ false
      → g.data_dir ≡ f.data_dir
      → g.locked ≡ f.locked
      → let o = sign_out k os f s st in
        (o.app.auth_token ≡ none) × (o.app.user_label ≡ none) × Announced os o.events o.store
  unfolding sign_out clear_session
  sign_out-Announced os s st h q lk = (
    refl,
    refl,
    deleted-Announced os s (delete_token k f st) (delete_token-Honest k law f g st h q lk),
  )

  -- A sign out that meets the keyring locked is not honest: with a fallback file that can be removed, it reports
  -- nothing of the token that the keyring holds, and a process that starts once the keyring is unlocked takes it
  -- up, in the same data directory.
  pub sign_out-locked :
      (os : Text) (s : AppState) (st : State k) (v : Text)
      → f.locked ≡ true
      → g.locked ≡ false
      → k.opens st.entry ≡ true
      → k.get_password st.entry ≡ found v
      → f.remove ≡ false
      → g.data_dir ≡ f.data_dir
      → let o = sign_out k os f s st in
        (incomplete o.events ≡ false) × (next_token o.store ≡ some v)
  unfolding sign_out startup_blocking_work
  sign_out-locked os s st v lk un o p r q =
      let (quiet, again) = delete_token-locked k law f g st v lk un o p r q in
      (
        ap (λ x. incomplete (cleared_out k os s (x, st)).events) quiet,
        taken_up-some k g e base (load k g (delete_token k f st).1) v again,
      )

  adopted-restart :
      (tok : Text) (st st' : State k) {c : CredentialStore} (r : Result CredentialStore × State k)
      → r ≡ (ok c, st')
      → load k g st' ≡ ok (some tok)
      → next_token r.1 ≡ some tok
  unfolding startup_blocking_work
  adopted-restart tok st st' r h l = rw h (taken_up-some k g e base (load k g st') tok l)

  taken-store :
      (is_format : ℕ → Bool) (me : Outcome) (tok : Text) (s : AppState) (st : State k)
      → (i : Identity) → i ≢ rejected
      → (adopted k f tok st (adopt_as tok s i)).store ≡ (save_token k f tok st).1
  taken-store is_format me tok s st rejected h = absurd (h refl)
  taken-store is_format me tok s st (accepted label) h = refl
  taken-store is_format me tok s st unknown h = refl

  -- A token that the API did not refuse and that was stored, in the keyring or in the file, is the session's
  -- token of the next process, if it is not empty, the keyring does what its crate documents, and the fallback
  -- file can be removed and read in the same data directory, with the keyring as accessible as at the save.
  pub adopt_token-restart :
      (is_format : ℕ → Bool) (me : Outcome) (tok : Text) (s : AppState) (st : State k)
      {c : CredentialStore} {st' : State k}
      → fetch_identity is_format me ≢ rejected
      → save_token k f tok st ≡ (ok c, st')
      → tok ≢ []
      → f.remove ≡ false
      → g.read ≡ false
      → g.data_dir ≡ f.data_dir
      → g.locked ≡ f.locked
      → next_token (adopt_token k is_format f me tok s st).store ≡ some tok
  unfolding adopt_token adopt_unless_rejected
  adopt_token-restart is_format me tok s st {c} {st'} accepted_by h ne rm rd q lk =
      rw (taken-store is_format me tok s st (fetch_identity is_format me) accepted_by) (
        adopted-restart tok st st' (save_token k f tok st) h
          (save_token-load k law f g tok st h ne rm rd q lk))
