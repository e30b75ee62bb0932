-- ===== src/Label/Adoption.antt =====
-- src-tauri/src/lib.rs: whose name stands above a session that was just adopted.
use klaayguard.Prelude.{
  ℕ, ◌≡◌, refl, ap, sym, ◌∙◌, unwrap_or, ◌⊎◌, inl, inr, Bool, true, false, Option, none, some,
  Bool-cases,
}
use klaayguard.Text.{Text}
use klaayguard.Json.{Value}
use klaayguard.Http.{Response, Outcome, answered, network_error, is_success, is_auth_failure}
use klaayguard.Session.{AppState, adopt_session}
use klaayguard.Label.{
  identity_label, fetch_identity, adopt_as, accepted_body, adopt_unless_rejected,
}

module _ (is_format : ℕ → Bool) where
  -- The API has named the holder of the token with this label.
  abbrev pub NamedBy : Outcome → Option Text → Type 0
  NamedBy me label =
      (r : Response) × (body : Value) × (me ≡ answered r)
      × (is_success r.status ≡ true)
      × (r.json ≡ some body)
      × (label ≡ identity_label is_format body)

  abbrev pub IsRefusal : Outcome → Type 0
  IsRefusal me = (r : Response) × (me ≡ answered r) × (is_auth_failure r.status ≡ true)

  abbrev pub NotRefused : Outcome → Type 0
  NotRefused me = (r : Response) → me ≡ answered r → is_auth_failure r.status ≡ false

  -- a reply that succeeds and has a body names the holder
  abbrev pub KeepsName : Outcome → Option Text → Type 0
  KeepsName me label =
      (r : Response) (body : Value)
      → me ≡ answered r
      → is_success r.status ≡ true
      → r.json ≡ some body
      → label ≡ identity_label is_format body

  -- What an adoption does: a token that is not taken was refused, and nothing has changed; a session
  -- that is taken was not refused, has this token, and has the name that the reply gives, or none where it
  -- gives none.
  abbrev pub Adoption : Outcome → Text → AppState → Bool × AppState → Type 0
  Adoption me tok s (false, s') = IsRefusal me × (s' ≡ s)
  Adoption me tok s (true, s') =
      NotRefused me
      × (s'.auth_token ≡ some tok)
      × ((s'.user_label ≡ none) ⊎ NamedBy me s'.user_label)
      × KeepsName me s'.user_label

  abbrev response : Response → Outcome → Response
  response d (answered r) = r
  response d (network_error e) = d

  same_response : (r q : Response) → answered r ≡ answered q → r ≡ q
  same_response r q e = ap (response r) e

  not_refused : (r : Response) → is_auth_failure r.status ≡ false → NotRefused (answered r)
  not_refused r a q e = ap (λ x. is_auth_failure x.status) (sym (same_response r q e)) ∙ a

  -- a reply that names nobody
  nameless_status : (r : Response) → is_success r.status ≡ false → KeepsName (answered r) none
  nameless_status r b q body e s j =
      absurd (cc (ap (λ x. is_success x.status) (same_response r q e), b, s))

  nameless_body : (r : Response) → r.json ≡ none → KeepsName (answered r) none
  nameless_body r n q body e s j = absurd (cc (ap (λ x. x.json) (same_response r q e), n, j))

  named_body :
      (r : Response) (v : Value)
      → r.json ≡ some v
      → KeepsName (answered r) (identity_label is_format v)
  named_body r v n q body e s j =
      let same : some v ≡ some body = sym n ∙ (ap (λ x. x.json) (same_response r q e) ∙ j) in
      ap (λ o. identity_label is_format (unwrap_or o v)) same

  body-Adoption :
      (r : Response) (tok : Text) (s : AppState)
      → is_auth_failure r.status ≡ false
      → is_success r.status ≡ true
      → (o : Option Value) → r.json ≡ o
      → Adoption (answered r) tok s (adopt_as tok s (accepted_body is_format o))
  unfolding adopt_session
  body-Adoption r tok s a b none q = (not_refused r a, refl, inl refl, nameless_body r q)
  body-Adoption r tok s a b (some body) q =
      (not_refused r a, refl, inr (r, body, refl, b, q, refl), named_body r body q)

  -- A token is turned away exactly upon a 401 or a 403 of `/me`, and then the session stays as it
  -- was; else it is the session's. It then has the name that a successful reply with a body gives, and
  -- no name after any other answer, so that the name of an earlier holder is gone.
  pub adopt_unless_rejected-Adoption :
      (me : Outcome) (tok : Text) (s : AppState)
      → Adoption me tok s (adopt_unless_rejected is_format me tok s)
  unfolding adopt_unless_rejected fetch_identity adopt_session
  adopt_unless_rejected-Adoption (network_error e) tok s =
      (λ r q. absurd (cc q), refl, inl refl, λ r body q s' j. absurd (cc q))
  adopt_unless_rejected-Adoption (answered r) tok s = elim (Bool-cases (is_auth_failure r.status)) [
    | inl a ↦ rw a ((r, refl, a), refl)
    | inr a ↦ elim (Bool-cases (is_success r.status)) [
      | inl b ↦ rw (a, b) (body-Adoption r tok s a b r.json refl)
      | inr b ↦ rw (a, b) (not_refused r a, refl, inl refl, nameless_status r b)
    ]
  ]
