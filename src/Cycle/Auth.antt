-- ===== src/Cycle/Auth.antt =====
-- src-tauri/src/lib.rs: what a cycle does to the session.
use klaayguard.Prelude.{
  ℕ, ◌≡◌, ◌≢◌, ◌⊎◌, inl, inr, refl, Bool, true, false, List, [], ◌∷◌, Option, none, some, ap, ◌∙◌,
  Bool-cases,
}
use klaayguard.Text.{Text, codes, Result, ok, err}
use klaayguard.Json.{Value}
use klaayguard.Session.{AppState, clear_session}
use klaayguard.Config.{CollectionItem, parse_config_items}
use klaayguard.Http.{SendResult, response, failed, is_success, is_auth_failure, send_with_retry}
use klaayguard.Credentials.{Keyring, Faults, State, save_device_identity, load}
use klaayguard.Device.{Host, get_device_identity, resolve, derive, from_store, settle, kept}
use klaayguard.Cycle.{
  Env, Event, Cycle, run_cycle, after_config, with_config, with_items, post, after_post,
  invalidate_auth, notify_signin_needed, debounced, JsonApiResource, JsonApiPayload, with_token,
}

-- Two states have one session.
abbrev pub SameSession : AppState → AppState → Type 0
SameSession s t = (t.auth_token ≡ s.auth_token) × (t.user_label ≡ s.user_label)

abbrev pub SignedOut : AppState → Type 0
SignedOut s = (s.auth_token ≡ none) × (s.user_label ≡ none)

-- the answer that a request ends with is a 401 or a 403
abbrev pub is_refused : SendResult → Bool
is_refused (response r) = is_auth_failure r.status
is_refused (failed e) = false

invalidate_auth-SignedOut : (e : Env) (s : AppState) → SignedOut (invalidate_auth e s).0
unfolding invalidate_auth notify_signin_needed clear_session
invalidate_auth-SignedOut e s = elim (Bool-cases (debounced e (clear_session s))) [
  | inl d ↦ rw d (refl, refl)
  | inr d ↦ rw d (refl, refl)
]

module _ (k : Keyring) (hmac : Text → List ℕ) (f : Faults) where
  kept-SameSession :
      (app : AppState) (id : Text) (r : Result (Unit {0}) × State k)
      → SameSession app (kept k app id r).app
  kept-SameSession app id (ok u, st) = (refl, refl)
  kept-SameSession app id (err e, st) = (refl, refl)

  settle-SameSession :
      (app : AppState) (st : State k) (r : Result Text) → SameSession app (settle k f app st r).app
  settle-SameSession app st (ok id) = kept-SameSession app id (save_device_identity k f id st)
  settle-SameSession app st (err e) = (refl, refl)

  from_store-SameSession :
      (app : AppState) (st : State k) (h : Host) (r : Result (Option Text))
      → SameSession app (from_store k hmac f app st h r).app
  unfolding derive
  from_store-SameSession app st h (ok (some (c ∷ s))) = (refl, refl)
  from_store-SameSession app st h (ok (some [])) = settle-SameSession app st _
  from_store-SameSession app st h (ok none) = settle-SameSession app st _
  from_store-SameSession app st h (err e) = settle-SameSession app st _

  resolve-SameSession :
      (app : AppState) (st : State k) (h : Host) (o : Option Text)
      → SameSession app (resolve k hmac f app st h o).app
  resolve-SameSession app st h (some id) = (refl, refl)
  resolve-SameSession app st h none = from_store-SameSession app st h (load k f st)

  get_device_identity-SameSession :
      (app : AppState) (st : State k) (h : Host)
      → SameSession app (get_device_identity k hmac f app st h).app
  unfolding get_device_identity
  get_device_identity-SameSession app st h = resolve-SameSession app st h app.device_identity

module _ (e : Env) where
  abbrev pub config_reply : SendResult
  config_reply = (send_with_retry true (codes "config") e.config_answers).result

  abbrev pub post_reply : SendResult
  post_reply = (send_with_retry true (codes "post") e.post_answers).result

module _ (k : Keyring) (hmac : Text → List ℕ) (f : Faults) (e : Env) where
  -- The session is kept, or it was cleared upon a refused request.
  abbrev pub Kept : AppState → Cycle k hmac f e → Type 0
  Kept app c =
      SameSession app c.app
      ⊎ (SignedOut c.app
          × ((is_refused (config_reply e) ≡ true)
              ⊎ ((is_refused (post_reply e) ≡ true) × (c.posted ≢ none))))

  after_post-Kept :
      (n : ℕ) (app s : AppState) (st : State k) (events : List Event) (sent : Text × JsonApiPayload)
      → SameSession app s
      → (r : SendResult) → (post_reply e) ≡ r
      → Kept app (after_post k hmac f e n s st events sent r)
  after_post-Kept n app s st events sent same (failed m) q = inl same
  after_post-Kept n app s st events sent same (response r) q =
      elim (Bool-cases (is_auth_failure r.status)) [
        | inl a ↦
            rw a
              (inr (invalidate_auth-SignedOut e s, inr (ap is_refused q ∙ a, λ z. absurd (cc z))))
        | inr a ↦ elim (Bool-cases (is_success r.status)) [
          | inl b ↦ rw (a, b) (inl same)
          | inr b ↦ rw (a, b) (inl same)
        ]
      ]

  post-Kept :
      (app s : AppState) (st : State k) (token id : Text) (events : List Event)
      (items : List JsonApiResource)
      → SameSession app s
      → Kept app (post k hmac f e token s st events id items)
  post-Kept app s st token id events [] same = inl same
  post-Kept app s st token id events (item ∷ items) same =
      after_post-Kept _ app s st events _ same (post_reply e) refl

  with_items-Kept :
      (app s : AppState) (st : State k) (token : Text) (events : List Event)
      (items : List CollectionItem)
      → SameSession app s
      → Kept app (with_items k hmac f e token s st events items)
  with_items-Kept app s st token events [] same = inl same
  with_items-Kept app s st token events (item ∷ items) (a, b) =
      let (c, d) = get_device_identity-SameSession k hmac f s st _ in
      post-Kept app _ _ token _ _ _ (c ∙ a, d ∙ b)

  with_config-Kept :
      (app s : AppState) (st : State k) (token : Text) (events : List Event) (cfg : Option Value)
      → SameSession app s
      → Kept app (with_config k hmac f e token s st events cfg)
  with_config-Kept app s st token events none same = inl same
  with_config-Kept app s st token events (some cfg) same =
      with_items-Kept app s st token events (parse_config_items cfg e.os) same

  after_config-Kept :
      (app s : AppState) (st : State k) (token : Text)
      → SameSession app s
      → (r : SendResult) → (config_reply e) ≡ r
      → Kept app (after_config k hmac f e token s st r)
  after_config-Kept app s st token same (failed m) q = inl same
  after_config-Kept app s st token same (response r) q =
      elim (Bool-cases (is_auth_failure r.status)) [
        | inl a ↦ rw a (inr (invalidate_auth-SignedOut e s, inl (ap is_refused q ∙ a)))
        | inr a ↦ elim (Bool-cases (is_success r.status)) [
          | inl b ↦ rw (a, b) (with_config-Kept app s st token _ r.json same)
          | inr b ↦ rw (a, b) (inl same)
        ]
      ]

  with_token-Kept :
      (app : AppState) (st : State k) (o : Option Text) → Kept app (with_token k hmac f e app st o)
  with_token-Kept app st none = inl (refl, refl)
  with_token-Kept app st (some token) =
      after_config-Kept app _ st token (refl, refl) (config_reply e) refl

  -- A cycle keeps the token and the name of the session, or it clears both, and then the API has
  -- refused the request for the configuration, or that with the rows, which was made.
  pub run_cycle-Kept : (app : AppState) (st : State k) → Kept app (run_cycle k hmac f e app st)
  unfolding run_cycle
  run_cycle-Kept app st = with_token-Kept app st app.auth_token

  refused_config :
      (s : AppState) (st : State k) (token : Text) (r : SendResult)
      → is_refused r ≡ true
      → SignedOut (after_config k hmac f e token s st r).app
        × ((after_config k hmac f e token s st r).posted ≡ none)
        × ((after_config k hmac f e token s st r).store ≡ st)
  refused_config s st token (failed m) h = absurd (cc h)
  refused_config s st token (response r) h = rw h (invalidate_auth-SignedOut e s, refl, refl)

  refused_token :
      (app : AppState) (st : State k) (o : Option Text)
      → o ≢ none
      → is_refused (config_reply e) ≡ true
      → SignedOut (with_token k hmac f e app st o).app
        × ((with_token k hmac f e app st o).posted ≡ none)
        × ((with_token k hmac f e app st o).store ≡ st)
  refused_token app st none signed h = absurd (signed refl)
  refused_token app st (some token) signed h = refused_config _ st token (config_reply e) h

  -- A signed-in cycle whose request for the configuration ends in a 401 or a 403 clears the session,
  -- posts nothing, and leaves the stored credentials alone.
  pub run_cycle-refused :
      (app : AppState) (st : State k)
      → app.auth_token ≢ none
      → is_refused (config_reply e) ≡ true
      → SignedOut (run_cycle k hmac f e app st).app
        × ((run_cycle k hmac f e app st).posted ≡ none)
        × ((run_cycle k hmac f e app st).store ≡ st)
  unfolding run_cycle
  run_cycle-refused app st signed h = refused_token app st app.auth_token signed h
