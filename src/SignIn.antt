-- ===== src/SignIn.antt =====
-- src-tauri/src/sign_in.rs and `open_sign_in` of src-tauri/src/lib.rs: the sign-in over a loopback port. The
-- socket, the browser, the random source, SHA-256 and base64 are parameters: `World` says what they give.
-- An error is its fixed text.
use klaayguard.Prelude.{
  ℕ, Bool, true, false, not, List, [], ◌∷◌, ◌++◌, Option, none, some, if◌then◌else◌, find,
  filter_map, and_then, map_some, keep_if, is_empty,
}
use klaayguard.Text.{Text, codes, eq_text, split, split_once, split_whitespace, Result, ok, err}
use klaayguard.Json.{Value, str, num, pos_int, object, get, get_str}
use klaayguard.Http.{Response, Outcome, answered, network_error, is_success}
use klaayguard.Session.{AppState}
use klaayguard.Credentials.{Keyring, Faults, State}
use klaayguard.Lifecycle.{After, Event, auth_status, adopt_token}
pub mod Bound
pub mod Code

abbrev second : List Text → Option Text
second (a ∷ b ∷ rest) = some b
second _ = none

abbrev is_code : Text × Text → Bool
is_code (key, value) = eq_text key (codes "code")

abbrev pub code_of_pairs : List Text → Option Text
code_of_pairs pairs =
    keep_if (λ code. not (is_empty code))
      (map_some (λ (pair : Text × Text). pair.1)
        (find is_code (filter_map (split_once b'=') pairs)))

abbrev pub code_of_query : Text → Option Text
code_of_query query = code_of_pairs (split b'&' query)

-- the target is the second word, and its query is behind the question mark
abbrev pub code_of_words : List Text → Option Text
code_of_words words =
    and_then (second words)
      (λ target. and_then (split_once b'?' target) (λ (cut : Text × Text). code_of_query cut.1))

unfoldable pub code_from_request_line : Text → Option Text
unfolding split_once eq_text klaayguard.Text.split_by
code_from_request_line line = code_of_words (split_whitespace line)

-- What the sign-in meets: the port that was bound, 32 random bytes, the answers of the API to a request, and
-- the line that arrives at the port once the browser has been given a link.
pub record World : Type 0 where
  pub bind : Result ℕ
  pub random : Option (List ℕ)
  pub post : Text → Value → Outcome
  pub request_line : Text → Option Text

-- a request: its address and its body
abbrev pub Request : Type 0
Request = Text × Value

-- `pointer("/data/attributes/…")` of a text
abbrev pub attribute : Text → Value → Option Text
attribute k v =
    and_then (get (codes "data") v) (λ top. and_then (get (codes "attributes") top) (get_str k))

-- the text of a reply that succeeds
abbrev pub answer_text : Text → Text → Text → Outcome → Result Text
answer_text k refused missing (network_error e) = err (codes "could not reach the server")
answer_text k refused missing (answered r) =
    if not (is_success r.status) then err refused else elim r.json [
      | none ↦ err (codes "could not read the server's reply")
      | some v ↦ elim (attribute k v) [ none ↦ err missing | some t ↦ ok t ]
    ]

module _ (base64 : List ℕ → Text) (sha256 : Text → List ℕ) where
  unfoldable pub random_secret : Option (List ℕ) → Option Text
  random_secret = map_some base64

  unfoldable pub challenge_for : Text → Text
  challenge_for verifier = base64 (sha256 verifier)

  abbrev auth_requests : List (Text × Value) → Value
  auth_requests attributes = object (
      (
        codes "data",
        object (
            (codes "type", str (codes "cli_auth_requests"))
            ∷ (codes "attributes", object attributes)
            ∷ []),
      )
      ∷ [])

  abbrev pub registration : Text → ℕ → Value
  registration verifier port = auth_requests (
      (codes "kind", str (codes "loopback"))
      ∷ (codes "client", str (codes "klaayguard"))
      ∷ (codes "code_challenge", str (challenge_for verifier))
      ∷ (codes "redirect_port", num (pos_int port))
      ∷ [])

  abbrev pub claim_body : Text → Text → Value
  claim_body code verifier =
      auth_requests ((codes "code", str code) ∷ (codes "code_verifier", str verifier) ∷ [])

  pub record Pending : Type 0 where
    pub request_id : Text
    pub verifier : Text

  abbrev pub start_url : Text → Text
  start_url api = api ++ codes "/cli_auth_requests"

  abbrev pub claim_url : Text → Text
  claim_url api = api ++ codes "/cli_auth_requests/claim"

  abbrev pub registered : Text → Request → Result Text → Result Pending × List Request
  registered verifier sent (ok id) =
      (ok (record { request_id = id; verifier = verifier }), sent ∷ [])
  registered verifier sent (err e) = (err e, sent ∷ [])

  -- the id that the API gives to the registration
  abbrev pub registration_reply : World → Text → ℕ → Text → Result Text
  registration_reply w api port verifier =
      answer_text (codes "request_id") (codes "server refused the sign-in")
        (codes "the server named no request to approve")
        (w.post (start_url api) (registration verifier port))

  abbrev pub register : World → Text → ℕ → Option Text → Result Pending × List Request
  register w api port none = (err (codes "no OS randomness for the sign-in secret"), [])
  register w api port (some verifier) =
      registered verifier (start_url api, registration verifier port)
        (registration_reply w api port verifier)

  abbrev pub bound : World → Text → Result ℕ → Result Pending × List Request
  bound w api (err e) = (err e, [])
  bound w api (ok port) = register w api port (random_secret w.random)

  -- the result, and the requests that were sent
  unfoldable pub start : World → Text → Result Pending × List Request
  unfolding random_secret challenge_for
  start w api = bound w api w.bind

  unfoldable pub wait_for_code : World → Text → Option Text
  unfolding code_from_request_line
  wait_for_code w link = and_then (w.request_line link) code_from_request_line

  unfoldable pub claim : World → Text → Text → Text → Result Text
  claim w api code verifier =
      answer_text (codes "token") (codes "the sign-in was refused")
        (codes "the sign-in completed but carried no token")
        (w.post (claim_url api) (claim_body code verifier))

  -- the link that the browser is given
  abbrev pub login_link : Text → Text → Text
  login_link frontend request_id =
      frontend ++ (codes "/login?app=klaayguard&request=" ++ request_id)

  module _ (k : Keyring) (is_format : ℕ → Bool) (f : Faults) where
    -- What the sign-in did: the requests, the link, and the session with the store.
    pub record Flow : Type 0 where
      pub requests : List Request
      pub link : Option Text
      pub after : After k

    abbrev pub untouched : AppState → State k → List Event → After k
    untouched s st events = record { app = s; store = st; events = events }

    module _ (w : World) (api frontend : Text) (me : Text → Outcome) (s : AppState)
        (st : State k) where
      abbrev pub claimed : Text → List Request → Result Text → Flow
      claimed link sent (ok token) = record {
        requests = sent;
        link = some link;
        after = adopt_token k is_format f (me token) token s st;
      }
      claimed link sent (err e) = record {
        requests = sent;
        link = some link;
        after = untouched s st (auth_status false ∷ []);
      }

      abbrev pub returned : Text → Pending → List Request → Option Text → Flow
      returned link p sent none = record {
        requests = sent;
        link = some link;
        after = untouched s st [];
      }
      returned link p sent (some code) =
          claimed link (sent ++ ((claim_url api, claim_body code p.verifier) ∷ []))
            (claim w api code p.verifier)

      abbrev pub pending : Result Pending × List Request → Flow
      pending (err e, sent) = record { requests = sent; link = none; after = untouched s st [] }
      pending (ok p, sent) =
          let link = login_link frontend p.request_id in returned link p sent (wait_for_code w link)

      unfoldable pub open_sign_in : Flow
      unfolding start claim wait_for_code adopt_token
      open_sign_in = pending (start w api)
