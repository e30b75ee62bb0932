-- ===== src/Cycle/Payload.antt =====
-- src-tauri/src/lib.rs: what a cycle posts.
use klaayguard.Prelude.{
  ℕ, ◌≡◌, ◌≢◌, inl, inr, refl, true, List, [], ◌∷◌, Option, none, some, ap, ◌∙◌, sym, Bool-cases,
  subst, unwrap_or, In,
}
use klaayguard.Text.{Text}
use klaayguard.Json.{Value}
use klaayguard.Session.{AppState}
use klaayguard.Config.{CollectionItem, parse_config_items}
use klaayguard.Http.{Response, SendResult, response, failed, is_success, is_auth_failure}
use klaayguard.Credentials.{Keyring, Faults, State}
use klaayguard.Cycle.{
  Env, Event, run_cycle, with_token, after_config, with_config, with_items, post, after_post,
  JsonApiResource, JsonApiPayload, run_builtin_check,
}
use klaayguard.Cycle.Keys.{Asked, collect-Asked, build_payload_items-Key}
use klaayguard.Cycle.Auth.{config_reply, post_reply}

-- The API accepted the request for the configuration, with this reply.
abbrev pub Configured : Env → Value → Type 0
Configured e cfg =
    (r : Response) × (config_reply e ≡ response r)
    × (is_success r.status ≡ true)
    × (r.json ≡ some cfg)

-- A post is due: it bears the token, it holds a row, and each row belongs to an item of the reply.
pub record Due (e : Env) (token : Text) (sent : Text × JsonApiPayload) : Type 0 where
  pub bearer : sent.0 ≡ token
  pub some_row : sent.1.data_items ≢ []
  pub cfg : Value
  pub configured : Configured e cfg
  pub asked :
      (r : JsonApiResource) → In r sent.1.data_items → Asked r.kind (parse_config_items cfg e.os)

-- the payload that a post carries, given why its rows are due
abbrev Rows : Env → Value → List JsonApiResource → Type 0
Rows e cfg items = (r : JsonApiResource) → In r items → Asked r.kind (parse_config_items cfg e.os)

module _ (k : Keyring) (hmac : Text → List ℕ) (f : Faults) (e : Env) where
  after_post-posted :
      (n : ℕ) (s : AppState) (st : State k) (events : List Event) (sent : Text × JsonApiPayload)
      (r : SendResult)
      → (after_post k hmac f e n s st events sent r).posted ≡ some sent
  after_post-posted n s st events sent (failed m) = refl
  after_post-posted n s st events sent (response r) = elim (Bool-cases (is_auth_failure r.status)) [
    | inl a ↦ rw a refl
    | inr a ↦ elim (Bool-cases (is_success r.status)) [
      | inl b ↦ rw (a, b) refl
      | inr b ↦ rw (a, b) refl
    ]
  ]

  post-Due :
      (token id : Text) (s : AppState) (st : State k) (events : List Event)
      (items : List JsonApiResource) (sent : Text × JsonApiPayload) (cfg : Value)
      → Configured e cfg
      → Rows e cfg items
      → (post k hmac f e token s st events id items).posted ≡ some sent
      → Due e token sent
  post-Due token id s st events [] sent cfg c rows h = absurd (cc h)
  post-Due token id s st events (item ∷ items) sent cfg c rows h =
      let body : Text × JsonApiPayload =
        (token, record { data_items = item ∷ items; device_uuid = id }) in
      let same : body ≡ sent =
        ap (λ o. unwrap_or o body)
          (sym (after_post-posted _ s st events body (post_reply e)) ∙ h) in
      subst (Due e token) same (record {
        bearer = refl;
        some_row = λ z. absurd (cc z);
        cfg = cfg;
        configured = c;
        asked = rows;
      })

  with_items-Due :
      (token : Text) (s : AppState) (st : State k) (events : List Event)
      (sent : Text × JsonApiPayload) (cfg : Value) (items : List CollectionItem)
      → Configured e cfg
      → parse_config_items cfg e.os ≡ items
      → (with_items k hmac f e token s st events items).posted ≡ some sent
      → Due e token sent
  with_items-Due token s st events sent cfg [] c q h = absurd (cc h)
  with_items-Due token s st events sent cfg (item ∷ items) c q h =
      post-Due token _ _ _ _ _ sent cfg c
        (λ r m. subst (Asked r.kind) (sym q) (
          collect-Asked (run_builtin_check e.os e.native) e.osquery_run (item ∷ items) r.kind
            (build_payload_items-Key e.collected_at _ r m)))
        h

  with_config-Due :
      (token : Text) (s : AppState) (st : State k) (events : List Event)
      (sent : Text × JsonApiPayload) (r : Response) (cfg : Option Value)
      → config_reply e ≡ response r
      → is_success r.status ≡ true
      → r.json ≡ cfg
      → (with_config k hmac f e token s st events cfg).posted ≡ some sent
      → Due e token sent
  with_config-Due token s st events sent r none p b q h = absurd (cc h)
  with_config-Due token s st events sent r (some cfg) p b q h =
      with_items-Due token s st events sent cfg (parse_config_items cfg e.os) (r, p, b, q) refl h

  after_config-Due :
      (token : Text) (s : AppState) (st : State k) (sent : Text × JsonApiPayload) (r : SendResult)
      → config_reply e ≡ r
      → (after_config k hmac f e token s st r).posted ≡ some sent
      → Due e token sent
  after_config-Due token s st sent (failed m) q h = absurd (cc h)
  after_config-Due token s st sent (response r) q h = elim (Bool-cases (is_auth_failure r.status)) [
    | inl a ↦ absurd (cc (rw a at h))
    | inr a ↦ elim (Bool-cases (is_success r.status)) [
      | inl b ↦ with_config-Due token s st _ sent r r.json q b refl (rw (a, b) at h)
      | inr b ↦ absurd (cc (rw (a, b) at h))
    ]
  ]

  with_token-Due :
      (app : AppState) (st : State k) (o : Option Text) (sent : Text × JsonApiPayload)
      → (with_token k hmac f e app st o).posted ≡ some sent
      → (token : Text) × (o ≡ some token) × Due e token sent
  with_token-Due app st none sent h = absurd (cc h)
  with_token-Due app st (some token) sent h =
      (token, refl, after_config-Due token _ st sent (config_reply e) refl h)

  -- A cycle posts only with the token that it started with, only rows and at least one, only after
  -- the API has sent a configuration, and only rows of the items that this configuration admits.
  pub run_cycle-Due :
      (app : AppState) (st : State k) (sent : Text × JsonApiPayload)
      → (run_cycle k hmac f e app st).posted ≡ some sent
      → (token : Text) × (app.auth_token ≡ some token) × Due e token sent
  unfolding run_cycle
  run_cycle-Due app st sent h = with_token-Due app st app.auth_token sent h
