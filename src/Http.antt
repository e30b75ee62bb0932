-- ===== src/Http.antt =====
-- src-tauri/src/lib.rs: `send_with_retry`, over the answers that the network gives to the attempts.
-- The HTTP client is not modelled: the answer to each attempt is a function of the attempt's number.
use klaayguard.Prelude.{
  ℕ, ◌+◌, Bool, not, ◌&&◌, ◌||◌, List, [], ◌∷◌, ◌++◌, Option, ◌==◌, within, if◌then◌else◌, true,
  false,
}
use klaayguard.Text.{Text, codes}
use klaayguard.Json.{Value}
pub mod Retry

-- A response: its status, and what parsing its body as JSON gives (`none` is a parse error).
pub record Response : Type 0 where
  pub status : ℕ
  pub json : Option Value

pub data Outcome : Type 0 where
  answered : Response → Outcome
  network_error : Text → Outcome

abbrev pub is_success : ℕ → Bool
is_success = within 200 299

abbrev pub is_auth_failure : ℕ → Bool
is_auth_failure status = status == 401 || status == 403

abbrev pub is_transient_status : ℕ → Bool
is_transient_status code = code == 429 || within 500 599 code

pub data SendResult : Type 0 where
  response : Response → SendResult
  failed : Text → SendResult

-- A finished call: what it returns, how often it sent, and how long it slept between.
pub record Sent : Type 0 where
  pub result : SendResult
  pub sends : ℕ
  pub slept : List ℕ

abbrev pub returned : Outcome → SendResult
returned (answered r) = response r
returned (network_error e) = failed e

-- the guard of the two `continue`s, but for the length of the ladder
abbrev pub is_retryable : Outcome → Bool
is_retryable (answered r) = not (is_success r.status) && is_transient_status r.status
is_retryable (network_error e) = true

abbrev pub once : Outcome → Sent
once o = record { result = returned o; sends = 1; slept = [] }

abbrev pub after_sleep : ℕ → Sent → Sent
after_sleep delay s = record s { sends = s.sends + 1; slept = delay ∷ s.slept }

-- The loop at attempt number `attempt`; the list is `retry_delays[attempt..]`.
unfoldable pub send_loop : (ℕ → Outcome) → ℕ → List ℕ → Sent
send_loop net attempt [] = once (net attempt)
send_loop net attempt (delay ∷ delays) =
    let again = after_sleep delay (send_loop net (attempt + 1) delays) in
    if is_retryable (net attempt) then again else once (net attempt)

abbrev pub retry_delays : List ℕ
retry_delays = 60 ∷ 120 ∷ []

-- A request that cannot be cloned is never sent.
unfoldable pub send_with_retry : Bool → Text → (ℕ → Outcome) → Sent
unfolding send_loop
send_with_retry false label net = record {
  result = failed (label ++ codes ": request is not retryable");
  sends = 0;
  slept = [];
}
send_with_retry true label net = send_loop net 0 retry_delays
