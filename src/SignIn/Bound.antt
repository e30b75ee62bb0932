-- ===== src/SignIn/Bound.antt =====
-- src-tauri/src/lib.rs: the token that `open_sign_in` adopts is bound to the process that asked for it.
use klaayguard.Prelude.{
  ℕ, ◌≡◌, refl, ap, ◌∙◌, ◌++◌, ◌⊎◌, inl, inr, Bool, true, Bool-cases, Option-cases, and_then, List,
  [], ◌∷◌, Option, none, some,
}
use klaayguard.Text.{Text, codes, Result, ok, err}
use klaayguard.Json.{Value, get, num, pos_int}
use klaayguard.Http.{Response, Outcome, answered, network_error, is_success}
use klaayguard.Session.{AppState}
use klaayguard.Credentials.{Keyring, Faults, State}
use klaayguard.Lifecycle.{adopt_token}
use klaayguard.SignIn.{
  World, Request, attribute, answer_text, code_from_request_line, challenge_for, random_secret,
  registration, claim_body, start_url, claim_url, registered, register, bound, start, wait_for_code,
  claim, login_link, registration_reply, Flow, claimed, returned, pending, open_sign_in,
}

-- an attribute of a request that is no text
abbrev number : Text → Value → Option Value
number key v =
    and_then (get (codes "data") v) (λ top. and_then (get (codes "attributes") top) (get key))

-- A reply that succeeds has this text.
abbrev pub Answers : Text → Text → Outcome → Type 0
Answers key t o =
    (r : Response) × (v : Value) × (o ≡ answered r)
    × (is_success r.status ≡ true)
    × (r.json ≡ some v)
    × (attribute key v ≡ some t)

attribute-Answers :
    (key refused missing t : Text) (r : Response) (v : Value)
    → is_success r.status ≡ true
    → r.json ≡ some v
    → (o : Option Text) → attribute key v ≡ o
    → (elim o as (λ x. Result Text) [ none ↦ err missing | some u ↦ ok u ]) ≡ ok t
    → Answers key t (answered r)
attribute-Answers key refused missing t r v s j none a h = absurd (cc h)
attribute-Answers key refused missing t r v s j (some u) a h =
    (r, v, refl, s, j, a ∙ ap some (cc h))

answer_text-Answers :
    (key refused missing t : Text) (o : Outcome)
    → answer_text key refused missing o ≡ ok t
    → Answers key t o
answer_text-Answers key refused missing t (network_error e) h = absurd (cc h)
answer_text-Answers key refused missing t (answered r) h = elim (Bool-cases (is_success r.status)) [
  | inl s ↦ elim (Option-cases r.json) [
    | inl j ↦ absurd (cc (rw (s, j) at h))
    | inr (v, j) ↦
        attribute-Answers key refused missing t r v s j (attribute key v) refl (rw (s, j) at h)
  ]
  | inr s ↦ absurd (cc (rw s at h))
]

and_then-some :
    {A B : Type 0} (o : Option A) (g : A → Option B) (b : B)
    → and_then o g ≡ some b
    → (a : A) × (o ≡ some a) × (g a ≡ some b)
and_then-some none g b h = absurd (cc h)
and_then-some (some a) g b h = (a, refl, h)

module _ (base64 : List ℕ → Text) (sha256 : Text → List ℕ) where
  random_secret-bytes :
      (o : Option (List ℕ)) (v : Text)
      → random_secret base64 sha256 o ≡ some v
      → (bytes : List ℕ) × (o ≡ some bytes) × (v ≡ base64 bytes)
  unfolding random_secret
  random_secret-bytes none v h = absurd (cc h)
  random_secret-bytes (some bytes) v h = (bytes, refl, cc h)

  wait_for_code-line :
      (w : World) (link code : Text)
      → wait_for_code base64 sha256 w link ≡ some code
      → (line : Text) × (w.request_line link ≡ some line)
        × (code_from_request_line line ≡ some code)
  unfolding wait_for_code
  wait_for_code-line w link code h =
      and_then-some (w.request_line link) code_from_request_line code h

  registration-challenge :
      (verifier : Text) (port : ℕ)
      → attribute (codes "code_challenge") (registration base64 sha256 verifier port)
        ≡ some (base64 (sha256 verifier))
  unfolding challenge_for get
  registration-challenge verifier port = refl

  registration-port :
      (verifier : Text) (port : ℕ)
      → number (codes "redirect_port") (registration base64 sha256 verifier port)
        ≡ some (num (pos_int port))
  unfolding get
  registration-port verifier port = refl

  claim_body-verifier :
      (code verifier : Text)
      → attribute (codes "code_verifier") (claim_body base64 sha256 code verifier) ≡ some verifier
  unfolding get
  claim_body-verifier code verifier = refl

  claim_body-code :
      (code verifier : Text)
      → attribute (codes "code") (claim_body base64 sha256 code verifier) ≡ some code
  unfolding get
  claim_body-code code verifier = refl

  registration_reply-Answers :
      (w : World) (api : Text) (port : ℕ) (verifier id : Text)
      → registration_reply base64 sha256 w api port verifier ≡ ok id
      → Answers
          (codes "request_id")
          id
          (w.post (api ++ codes "/cli_auth_requests") (registration base64 sha256 verifier port))
  registration_reply-Answers w api port verifier id h =
      answer_text-Answers (codes "request_id") (codes "server refused the sign-in")
        (codes "the server named no request to approve") id _ h

  claim-Answers :
      (w : World) (api code verifier token : Text)
      → claim base64 sha256 w api code verifier ≡ ok token
      → Answers (codes "token") token (
          w.post (api ++ codes "/cli_auth_requests/claim") (claim_body base64 sha256 code verifier))
  unfolding claim
  claim-Answers w api code verifier token h =
      answer_text-Answers (codes "token") (codes "the sign-in was refused")
        (codes "the sign-in completed but carried no token") token _ h

module _ (base64 : List ℕ → Text) (sha256 : Text → List ℕ) (k : Keyring) (is_format : ℕ → Bool)
    (f : Faults) where
  module _ (w : World) (api frontend : Text) (me : Text → Outcome) (s : AppState)
      (st : State k) where
    -- A session that is taken up. The API was sent the challenge of a secret that is made of the random bytes, and the
    -- port that was bound; the browser was given the id of the reply; the line that came back to the port holds the
    -- code; the API was sent the code and the secret, and the token is that of its reply.
    pub record Granted (flow : Flow base64 sha256 k is_format f) : Type 0 where
      port : ℕ
      bytes : List ℕ
      verifier : Text
      id : Text
      line : Text
      code : Text
      token : Text
      registered_as : Value
      claimed_with : Value
      own_port : w.bind ≡ ok port
      random_bytes : w.random ≡ some bytes
      own_secret : verifier ≡ base64 bytes
      sent :
          flow.requests
          ≡ (api ++ codes "/cli_auth_requests", registered_as)
            ∷ (api ++ codes "/cli_auth_requests/claim", claimed_with)
            ∷ []
      challenged :
          attribute (codes "code_challenge") registered_as ≡ some (base64 (sha256 verifier))
      redirected : number (codes "redirect_port") registered_as ≡ some (num (pos_int port))
      named :
          Answers (codes "request_id") id (w.post (api ++ codes "/cli_auth_requests") registered_as)
      shown : flow.link ≡ some (frontend ++ (codes "/login?app=klaayguard&request=" ++ id))
      came_back :
          w.request_line (frontend ++ (codes "/login?app=klaayguard&request=" ++ id)) ≡ some line
      holds_code : code_from_request_line line ≡ some code
      presented : attribute (codes "code_verifier") claimed_with ≡ some verifier
      with_code : attribute (codes "code") claimed_with ≡ some code
      given :
          Answers
            (codes "token")
            token
            (w.post (api ++ codes "/cli_auth_requests/claim") claimed_with)
      taken : flow.after ≡ adopt_token k is_format f (me token) token s st

    -- nothing is taken up: the session and the store are as they were
    abbrev pub Untouched : Flow base64 sha256 k is_format f → Type 0
    Untouched flow = (flow.after.app ≡ s) × (flow.after.store ≡ st)

    abbrev Settled : Flow base64 sha256 k is_format f → Type 0
    Settled flow = Untouched flow ⊎ Granted flow

    module _ (port : ℕ) (verifier id : Text) (own_port : w.bind ≡ ok port)
        (own_secret : random_secret base64 sha256 w.random ≡ some verifier)
        (named : registration_reply base64 sha256 w api port verifier ≡ ok id) where
      abbrev link : Text
      link = login_link base64 sha256 frontend id

      abbrev first : Request
      first = (start_url base64 sha256 api, registration base64 sha256 verifier port)

      abbrev second : Text → Request
      second code = (claim_url base64 sha256 api, claim_body base64 sha256 code verifier)

      claimed-Settled :
          (code : Text)
          → wait_for_code base64 sha256 w link ≡ some code
          → (r : Result Text) → claim base64 sha256 w api code verifier ≡ r
          → Settled (
              claimed base64 sha256 k is_format f w api frontend me s st link
                (first ∷ second code ∷ [])
                r)
      claimed-Settled code back (err e) q = inl (refl, refl)
      claimed-Settled code back (ok token) q =
          let (bytes, drawn, secret) =
            random_secret-bytes base64 sha256 w.random verifier own_secret in
          let (line, arrived, read) = wait_for_code-line base64 sha256 w link code back in
          inr (record {
            port = port;
            bytes = bytes;
            verifier = verifier;
            id = id;
            line = line;
            code = code;
            token = token;
            registered_as = registration base64 sha256 verifier port;
            claimed_with = claim_body base64 sha256 code verifier;
            own_port = own_port;
            random_bytes = drawn;
            own_secret = secret;
            sent = refl;
            challenged = registration-challenge base64 sha256 verifier port;
            redirected = registration-port base64 sha256 verifier port;
            named = registration_reply-Answers base64 sha256 w api port verifier id named;
            shown = refl;
            came_back = arrived;
            holds_code = read;
            presented = claim_body-verifier base64 sha256 code verifier;
            with_code = claim_body-code base64 sha256 code verifier;
            given = claim-Answers base64 sha256 w api code verifier token q;
            taken = refl;
          })

      returned-Settled :
          (o : Option Text)
          → wait_for_code base64 sha256 w link ≡ o
          → Settled (
              returned base64 sha256 k is_format f w api frontend me s st link
                (record { request_id = id; verifier = verifier })
                (first ∷ [])
                o)
      returned-Settled none q = inl (refl, refl)
      returned-Settled (some code) q = claimed-Settled code q _ refl

    registered-Settled :
        (port : ℕ) (verifier : Text)
        → w.bind ≡ ok port
        → random_secret base64 sha256 w.random ≡ some verifier
        → (r : Result Text) → registration_reply base64 sha256 w api port verifier ≡ r
        → Settled (
            pending base64 sha256 k is_format f w api frontend me s st (
              registered base64 sha256 verifier
                (start_url base64 sha256 api, registration base64 sha256 verifier port)
                r))
    registered-Settled port verifier p v (err e) n = inl (refl, refl)
    registered-Settled port verifier p v (ok id) n = returned-Settled port verifier id p v n _ refl

    register-Settled :
        (port : ℕ)
        → w.bind ≡ ok port
        → (o : Option Text) → random_secret base64 sha256 w.random ≡ o
        → Settled (
            pending base64 sha256 k is_format f w api frontend me s st
              (register base64 sha256 w api port o))
    register-Settled port p none v = inl (refl, refl)
    register-Settled port p (some verifier) v = registered-Settled port verifier p v _ refl

    bound-Settled :
        (r : Result ℕ)
        → w.bind ≡ r
        → Settled (
            pending base64 sha256 k is_format f w api frontend me s st
              (bound base64 sha256 w api r))
    bound-Settled (err e) p = inl (refl, refl)
    bound-Settled (ok port) p = register-Settled port p _ refl

    -- Whatever the API, the browser and the port give: a sign-in leaves the session and the store as they were, or it
    -- was granted. Then it registered the port that it bound and the challenge of its secret, which is made of the
    -- random bytes; the browser got the id of the reply; the code came back to the port; the API got the code and
    -- the secret; and the session adopts the token of the reply. Both replies had a status of success.
    pub open_sign_in-Settled :
        (let flow = open_sign_in base64 sha256 k is_format f w api frontend me s st in
          Untouched flow ⊎ Granted flow)
    unfolding open_sign_in start
    open_sign_in-Settled = bound-Settled w.bind refl
