-- ===== src/Tests/Browser.antt =====
-- A run of the browser sign-in.
use klaayguard.Prelude.{ℕ, ◌≡◌, refl, ◌⊎◌, Bool, List, [], ◌∷◌, Option, none, some, if◌then◌else◌}
use klaayguard.Text.{Text, codes, eq_text, ok}
use klaayguard.Json.{Value, object, str}
use klaayguard.Http.{Outcome, answered}
use klaayguard.SignIn.{World, open_sign_in}
use klaayguard.SignIn.Bound.{Untouched, Granted, open_sign_in-Settled}
use klaayguard.Tests.Fixtures.{ring, no_faults, empty_store, signed_out, answer}

abbrev reply : List (Text × Value) → Outcome
reply attributes = answered (record {
  status = 200;
  json = some (object ((codes "data", object ((codes "attributes", object attributes) ∷ [])) ∷ []));
})

abbrev api : Text
api = codes "https://api.klaay.com"

-- an API that gives one id and one token, and a browser that comes back with a code
abbrev world : World
world = record {
  bind = ok 49152;
  random = some (1 ∷ 2 ∷ []);
  post = λ url body.
      if eq_text url (codes "https://api.klaay.com/cli_auth_requests")
      then reply ((codes "request_id", str (codes "r1")) ∷ [])
      else reply ((codes "token", str (codes "t1")) ∷ []);
  request_line = λ link. some (codes "GET /?code=c1 HTTP/1.1");
}

abbrev same : List ℕ → Text
same bytes = bytes

abbrev no_format : ℕ → Bool
no_format c = klaayguard.Prelude.false

abbrev silent : Text → Outcome
silent token = answer 503 none 0

open_sign_in-Settled_example :
    let flow =
      open_sign_in same same ring no_format no_faults world api
        (codes "https://app.klaay.com")
        silent
        signed_out
        empty_store in
    Untouched same same ring no_format no_faults world api
      (codes "https://app.klaay.com")
      silent
      signed_out
      empty_store
      flow
    ⊎ Granted same same ring no_format no_faults world api
        (codes "https://app.klaay.com")
        silent
        signed_out
        empty_store
        flow
open_sign_in-Settled_example =
    open_sign_in-Settled same same ring no_format no_faults world api
      (codes "https://app.klaay.com") silent signed_out empty_store
