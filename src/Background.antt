-- ===== src/Background.antt =====
-- src-tauri/src/lib.rs: `spawn_background_loop`, which waits for the first token and then collects, at
-- each tick of an interval and whenever a token is acquired. The interval of tokio is a parameter; a
-- turn is one look of the runtime at the loop, with what the other tasks did to the session before it.
use klaayguard.Prelude.{
  ℕ, ◌+◌, ◌≤◌, ◌<◌, ◌≡◌, Bool, true, false, not, ◌&&◌, ◌||◌, List, [], ◌∷◌, Option, none, some, leb,
  if◌then◌else◌, is_some,
}
use klaayguard.Text.{Text, Result, ok, err}
use klaayguard.Session.{AppState}
use klaayguard.Credentials.{Keyring, Faults, State}
use klaayguard.Cycle.{Env, Event, run_cycle}
pub mod Timing
pub mod Wakeup

-- What `tokio::time::Interval` with `MissedTickBehavior::Skip` documents: the first tick completes at
-- once, a late tick is followed by one at a later multiple of the period, and none is made up for.
pub record Intervals : Type 1 where
  pub Timer : Type 0
  pub interval : ℕ → ℕ → Timer  -- of a period, at a time
  pub period : Timer → ℕ
  pub deadline : Timer → ℕ
  pub ticked : Timer → ℕ → Timer
  pub reset : Timer → ℕ → Timer
  pub interval_period : (p now : ℕ) → period (interval p now) ≡ p
  pub interval_deadline : (p now : ℕ) → deadline (interval p now) ≡ now
  pub ticked_period : (t : Timer) (now : ℕ) → period (ticked t now) ≡ period t
  pub ticked_skips :
      (t : Timer) (now : ℕ)
      → 0 < period t
      → deadline t ≤ now
      → (deadline t + period t ≤ deadline (ticked t now))
        × (now < deadline (ticked t now))
        × (deadline (ticked t now) ≤ now + period t)
  pub reset_period : (t : Timer) (now : ℕ) → period (reset t now) ≡ period t
  pub reset_deadline : (t : Timer) (now : ℕ) → deadline (reset t now) ≡ now + period t

-- which branch of the `select!` woke the loop
pub data Wake : Type 0 where
  tick : Wake
  acquired : Wake

-- A cycle that the loop ran: when, why, the token it began with, what the window was told, and the
-- error that went to "collection:error".
pub record Begun : Type 0 where
  pub at : ℕ
  pub wake : Wake
  pub token : Option Text
  pub told : List Event
  pub error : Option Text

abbrev error_of : {A : Type 0} → Result A → Option Text
error_of (ok a) = none
error_of (err e) = some e

module _ (i : Intervals) (k : Keyring) (hmac : Text → List ℕ) where
  open i use {Timer, interval, deadline, ticked, reset}

  -- `tick_first`: the branch that `select!` takes when both are ready, which it picks at random
  pub record Turn : Type 0 where
    pub now : ℕ
    pub meanwhile : AppState → AppState
    pub stored : State k → State k
    pub tick_first : Bool
    pub faults : Faults
    pub env : Env

  -- `begun` has the newest cycle first.
  pub record Loop : Type 0 where
    pub now : ℕ
    pub opened : ℕ  -- when the interval was made
    pub app : AppState
    pub store : State k
    pub timer : Timer
    pub begun : List Begun

  -- A cycle that fails is told, and the loop goes on.
  abbrev pub collected : Turn → Wake → Timer → Loop → Loop
  collected t wake timer s =
      let c = run_cycle k hmac t.faults (record t.env { now = t.now }) s.app s.store in
      record {
        now = t.now;
        opened = s.opened;
        app = c.app;
        store = c.store;
        timer = timer;
        begun =
            record {
              at = t.now;
              wake = wake;
              token = s.app.auth_token;
              told = c.events;
              error = error_of c.result;
            }
            ∷ s.begun;
      }

  -- the `select!`, with the cycle of the branch that it takes
  unfoldable pub select : Turn → Loop → Loop
  select t s =
      let due = leb (deadline s.timer) t.now in
      if s.app.token_acquired && not (due && t.tick_first)
      then collected t acquired (reset s.timer t.now)
          (record s { app = record s.app { token_acquired = false } })
      else if due
      then collected t tick (ticked s.timer t.now) s
      else record s { now = t.now }

  abbrev pub meantime : Turn → Loop → Loop
  meantime t s = record s { app = t.meanwhile s.app; store = t.stored s.store }

  pub turns : List Turn → Loop → Loop
  turns [] s = s
  turns (t ∷ ts) s = turns ts (select t (meantime t s))

  abbrev pub opened_at : ℕ → ℕ → AppState → State k → Loop
  opened_at p now app st = record {
    now = now;
    opened = now;
    app = app;
    store = st;
    timer = interval p now;
    begun = [];
  }

  -- `none` while there is no token yet: a look every three seconds, and then the first `select!`
  unfoldable pub spawn_background_loop : ℕ → AppState → State k → List Turn → Option Loop
  unfolding turns select
  spawn_background_loop p app st [] = none
  spawn_background_loop p app st (t ∷ ts) =
      let app' = t.meanwhile app in
      let st' = t.stored st in
      let waiting = spawn_background_loop p app' st' ts in
      if is_some app'.auth_token
      then some (turns ts (select t (opened_at p t.now app' st')))
      else waiting
