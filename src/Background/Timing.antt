-- ===== src/Background/Timing.antt =====
-- src-tauri/src/lib.rs: when the background loop collects.
use klaayguard.Prelude.{
  ℕ, suc, ◌+◌, ◌*◌, ◌≤◌, ◌<◌, ◌≡◌, sym, ◌∙◌, subst, inl, inr, true, false, not, ◌&&◌, List, [], ◌∷◌,
  Option, none, some, leb, Bool-cases, arith, is_some,
}
use klaayguard.Session.{AppState}
use klaayguard.Credentials.{Keyring, State}
use klaayguard.Text.{Text}
use klaayguard.Background.{
  Intervals, tick, acquired, Begun, Turn, Loop, collected, select, meantime, turns, opened_at,
  spawn_background_loop,
}

abbrev pub ticks : List Begun → ℕ
ticks [] = 0
ticks (b ∷ bs) = elim b.wake [ tick ↦ suc (ticks bs) | acquired ↦ ticks bs ]

-- The newest cycle began less than a period ago.
abbrev pub Fresh : ℕ → ℕ → List Begun → Type 0
Fresh p now [] = ⊥
Fresh p now (b ∷ bs) = (b.at ≤ now) × (now < b.at + p)

abbrev Newest : ℕ → ℕ → ℕ → List Begun → Type 0
Newest p now deadline [] = ⊥
Newest p now deadline (b ∷ bs) = (b.at ≤ now) × (deadline ≤ b.at + p)

-- The times of the turns do not go back.
abbrev pub Ordered : {A : Type 0} → (A → ℕ) → ℕ → List A → Type 0
Ordered time from [] = Unit
Ordered time from (t ∷ ts) = (from ≤ time t) × Ordered time (time t) ts

module _ (i : Intervals) (k : Keyring) (hmac : Text → List ℕ) where
  open i use {
    interval, period, deadline, ticked, reset, interval_period, interval_deadline, ticked_period,
    ticked_skips, reset_period, reset_deadline,
  }

  record Inv (p : ℕ) (s : Loop i k hmac) : Type 0 where
    same : period s.timer ≡ p
    ahead : s.now < deadline s.timer
    newest : Newest p s.now (deadline s.timer) s.begun
    spent : s.opened + ticks s.begun * p ≤ deadline s.timer

  -- What a loop that waits at a time is like, before its `select!`.
  record Waiting (p : ℕ) (s : Loop i k hmac) (now : ℕ) : Type 0 where
    same : period s.timer ≡ p
    near : deadline s.timer ≤ now + p
    kept : (now < deadline s.timer) → Newest p now (deadline s.timer) s.begun
    spent : s.opened + ticks s.begun * p ≤ deadline s.timer

  module _ (p : ℕ) (pos : 0 < p) (t : Turn i k hmac) (s : Loop i k hmac)
      (w : Waiting p s t.now) where
    open w use {same, near, kept, spent}

    acquired-Inv :
        (a : AppState)
        → Inv p (collected i k hmac t acquired (reset s.timer t.now) (record s { app = a }))
    acquired-Inv a = record {
      same = reset_period s.timer t.now ∙ same;
      ahead = omega (arith, reset_deadline s.timer t.now, same);
      newest = (omega arith, omega (arith, reset_deadline s.timer t.now, same));
      spent = omega (arith, reset_deadline s.timer t.now, same, near, spent);
    }

    ticked-Inv :
        deadline s.timer ≤ t.now → Inv p (collected i k hmac t tick (ticked s.timer t.now) s)
    ticked-Inv h =
        let later = ticked_skips s.timer t.now (omega (arith, same)) h in
        record {
          same = ticked_period s.timer t.now ∙ same;
          ahead = later.1;
          newest = (omega arith, omega (arith, later.2, same));
          spent = grind (arith, later.0, same, spent);
        }

    kept-Inv : t.now < deadline s.timer → Inv p (record s { now = t.now })
    kept-Inv h = record { same = same; ahead = h; newest = kept h; spent = spent }

    select-Inv : Inv p (select i k hmac t s)
    unfolding select
    select-Inv = elim (Bool-cases (leb (deadline s.timer) t.now)) [
      | inl due ↦ elim (Bool-cases (s.app.token_acquired && not (true && t.tick_first))) [
        | inl a ↦ rw (due, a) (acquired-Inv _)
        | inr b ↦ rw (due, b) (ticked-Inv (ground arith))
      ]
      | inr early ↦ elim (Bool-cases (s.app.token_acquired && not (false && t.tick_first))) [
        | inl a ↦ rw (early, a) (acquired-Inv _)
        | inr b ↦ rw (early, b) (kept-Inv (ground arith))
      ]
    ]

  Newest-later :
      (p now later deadline : ℕ) (bs : List Begun)
      → now ≤ later
      → Newest p now deadline bs
      → Newest p later deadline bs
  Newest-later p now later deadline [] h n = n
  Newest-later p now later deadline (b ∷ bs) h n = omega arith

  Newest-near :
      (p now later deadline : ℕ) (bs : List Begun)
      → now ≤ later
      → Newest p now deadline bs
      → deadline ≤ later + p
  Newest-near p now later deadline [] h n = absurd n
  Newest-near p now later deadline (b ∷ bs) h n = omega arith

  meantime-Waiting :
      (p : ℕ) (t : Turn i k hmac) (s : Loop i k hmac)
      → s.now ≤ t.now
      → Inv p s
      → Waiting p (meantime i k hmac t s) t.now
  meantime-Waiting p t s h v = record {
    same = v.same;
    near = Newest-near p s.now t.now _ s.begun h v.newest;
    kept = λ _. Newest-later p s.now t.now _ s.begun h v.newest;
    spent = v.spent;
  }

  now-select : (t : Turn i k hmac) (s : Loop i k hmac) → (select i k hmac t s).now ≡ t.now
  unfolding select
  now-select t s = ground arith

  turns-Inv :
      (p : ℕ) (ts : List (Turn i k hmac)) (s : Loop i k hmac)
      → 0 < p
      → Ordered (λ (t : Turn i k hmac). t.now) s.now ts
      → Inv p s
      → Inv p (turns i k hmac ts s)
  unfolding turns
  turns-Inv p [] s pos o v = v
  turns-Inv p (t ∷ ts) s pos (h, o) v =
      let s' = select i k hmac t (meantime i k hmac t s) in
      turns-Inv p ts s' pos
        (subst (λ from. Ordered (λ (u : Turn i k hmac). u.now) from ts)
          (sym (now-select t (meantime i k hmac t s))) o)
        (select-Inv p pos t (meantime i k hmac t s) (meantime-Waiting p t s h v))

  opened-Waiting :
      (p now : ℕ) (app : AppState) (st : State k) → Waiting p (opened_at i k hmac p now app st) now
  opened-Waiting p now app st = record {
    same = interval_period p now;
    near = omega (arith, interval_deadline p now);
    kept = λ h. absurd (omega (arith, interval_deadline p now, h));
    spent = omega (arith, interval_deadline p now);
  }

  -- No look has found a token.
  abbrev pub NoToken : AppState → List (Turn i k hmac) → Type 0
  NoToken app [] = Unit
  NoToken app (t ∷ ts) = ((t.meanwhile app).auth_token ≡ none) × NoToken (t.meanwhile app) ts

  abbrev pub Ends :
      (Loop i k hmac → Type 0) → AppState → List (Turn i k hmac) → Option (Loop i k hmac) → Type 0
  Ends P app ts none = NoToken app ts
  Ends P app ts (some s) = P s

  Ends-later :
      (P : Loop i k hmac → Type 0) (app : AppState) (t : Turn i k hmac) (ts : List (Turn i k hmac))
      (o : Option (Loop i k hmac))
      → is_some (t.meanwhile app).auth_token ≡ false
      → Ends P (t.meanwhile app) ts o
      → Ends P app (t ∷ ts) o
  Ends-later P app t ts none e h = (ground arith, h)
  Ends-later P app t ts (some s) e h = h

  Ends-map :
      (P Q : Loop i k hmac → Type 0) (app : AppState) (ts : List (Turn i k hmac))
      (o : Option (Loop i k hmac))
      → ((s : Loop i k hmac) → P s → Q s)
      → Ends P app ts o
      → Ends Q app ts o
  Ends-map P Q app ts none f h = h
  Ends-map P Q app ts (some s) f h = f s h

  spawn-Inv :
      (p from : ℕ) (app : AppState) (st : State k) (ts : List (Turn i k hmac))
      → 0 < p
      → Ordered (λ (t : Turn i k hmac). t.now) from ts
      → Ends (Inv p) app ts (spawn_background_loop i k hmac p app st ts)
  unfolding spawn_background_loop
  spawn-Inv p from app st [] pos o = tt
  spawn-Inv p from app st (t ∷ ts) pos (h, o) =
      let app' = t.meanwhile app in
      let first = opened_at i k hmac p t.now app' (t.stored st) in
      let rest = spawn-Inv p t.now app' (t.stored st) ts pos o in
      elim (Bool-cases (is_some app'.auth_token)) [
        | inl e ↦ rw e (
            turns-Inv p ts (select i k hmac t first) pos
              (subst (λ from. Ordered (λ (u : Turn i k hmac). u.now) from ts)
                (sym (now-select t first)) o)
              (select-Inv p pos t first (opened-Waiting p t.now app' (t.stored st))))
        | inr e ↦ rw e (Ends-later (Inv p) app t ts _ e rest)
      ]

  Inv-Fresh :
      (p now deadline : ℕ) (bs : List Begun)
      → now < deadline
      → Newest p now deadline bs
      → Fresh p now bs
  Inv-Fresh p now deadline [] h n = n
  Inv-Fresh p now deadline (b ∷ bs) h n = omega arith

  Newest-spent :
      (p opened now deadline : ℕ) (bs : List Begun)
      → opened + ticks bs * p ≤ deadline
      → Newest p now deadline bs
      → opened + ticks bs * p ≤ now + p
  Newest-spent p opened now deadline [] h n = absurd n
  Newest-spent p opened now deadline (b ∷ bs) h n = omega (arith, n, h)

  -- However the looks at the loop fall, at times that do not go back, and whatever its cycles end in:
  -- it waits only while no look has found a token. After that, at each look the newest cycle began less
  -- than a period ago, one that begins at the look itself included; and no burst follows a sleep of the
  -- machine, as the cycles that ticks began are at most one for each whole period since the interval was
  -- made, and one more. The period is not zero.
  pub spawn_background_loop-Paced :
      (p : ℕ) (app : AppState) (st : State k) (ts : List (Turn i k hmac))
      → 0 < p
      → Ordered (λ (t : Turn i k hmac). t.now) 0 ts
      → Ends
          (λ s. Fresh p s.now s.begun × (s.opened + ticks s.begun * p ≤ s.now + p))
          app
          ts
          (spawn_background_loop i k hmac p app st ts)
  spawn_background_loop-Paced p app st ts pos o =
      Ends-map (Inv p) (λ s. Fresh p s.now s.begun × (s.opened + ticks s.begun * p ≤ s.now + p)) app
        ts _
        (λ s v. (
          Inv-Fresh p s.now _ s.begun v.ahead v.newest,
          Newest-spent p s.opened s.now _ s.begun v.spent v.newest,
        ))
        (spawn-Inv p 0 app st ts pos o)
