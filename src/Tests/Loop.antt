-- ===== src/Tests/Loop.antt =====
-- Runs of the background loop, and of the start of the process.
use native.Mathlib.Decide.{ℕ_discrete}
use klaayguard.Prelude.{
  ℕ, ◌+◌, ◌-◌, ◌%◌, ◌≤◌, ◌<◌, ◌*◌, ◌≡◌, refl, ◌⊎◌, true, false, List, [], ◌∷◌, none, some, arith,
}
use klaayguard.Text.{codes}
use klaayguard.Background.{Intervals, Turn, Loop, spawn_background_loop}
use klaayguard.Background.Timing.{Ends, Fresh, ticks, spawn_background_loop-Paced}
use klaayguard.Background.Wakeup.{
  System, start, Reach, here, next, acquire, started, notify_one, token_acquired-kept, Notifying,
  selecting,
}
use klaayguard.Instance.{won}
use klaayguard.Startup.Main.{Launch}
use klaayguard.Tests.Fixtures.{ring, hmac, no_faults, signed_in, signed_out, empty_store, working}

-- A timer is its period and its deadline.
abbrev skip : ℕ × ℕ → ℕ → ℕ × ℕ
skip (p, d) now = (p, now + p - (now - d) % p)

skips :
    (t : ℕ × ℕ) (now : ℕ)
    → 0 < t.0
    → t.1 ≤ now
    → (t.1 + t.0 ≤ (skip t now).1) × (now < (skip t now).1) × ((skip t now).1 ≤ now + t.0)
skips (p, d) now pos h = (grind arith, grind arith, grind arith)

abbrev skipping : Intervals
skipping = record {
  Timer = ℕ × ℕ;
  interval = λ p now. (p, now);
  period = λ t. t.0;
  deadline = λ t. t.1;
  ticked = skip;
  reset = λ t now. (t.0, now + t.0);
  interval_period = λ p now. refl;
  interval_deadline = λ p now. refl;
  ticked_period = λ t now. refl;
  ticked_skips = skips;
  reset_period = λ t now. refl;
  reset_deadline = λ t now. refl;
}

-- no token yet, then a sign-in, then a look after a sleep of the machine
abbrev quiet : Turn skipping ring hmac
quiet = record {
  now = 10;
  meanwhile = λ s. s;
  stored = λ s. s;
  tick_first = false;
  faults = no_faults;
  env = working;
}

abbrev signs_in : Turn skipping ring hmac
signs_in = record quiet { now = 13; meanwhile = λ s. record signed_in { token_acquired = true } }

abbrev awake : Turn skipping ring hmac
awake = record quiet { now = 5000 }

abbrev looks : List (Turn skipping ring hmac)
looks = quiet ∷ signs_in ∷ awake ∷ []

spawn_background_loop-Paced_example :
    Ends skipping ring hmac
      (λ s. Fresh 900 s.now s.begun × (s.opened + ticks s.begun * 900 ≤ s.now + 900))
      signed_out
      looks
      (spawn_background_loop skipping ring hmac 900 signed_out empty_store looks)
spawn_background_loop-Paced_example =
    spawn_background_loop-Paced skipping ring hmac 900 signed_out empty_store looks (omega arith)
      (omega arith)

-- a thread has written a token, and the loop has seen it before the permit was there
abbrev signed : System
signed = record {
  auth_token = some (codes "t0");
  token_acquired = false;
  loop = selecting;
  pc = klaayguard.Background.Wakeup.update start.pc 0 klaayguard.Background.Wakeup.written;
  unseen = true;
}

signs : Reach signed
unfolding ℕ_discrete
signs =
    let begun : Reach start = here in
    next (next begun (acquire 0 (codes "t0") refl)) (started refl (λ q. cc))

token_acquired-kept_example : (signed.token_acquired ≡ true) ⊎ Notifying signed.pc
token_acquired-kept_example = token_acquired-kept signs refl refl

-- an AppImage that another agent already runs beside
abbrev second : Launch
second = record {
  os = codes "linux";
  arch = codes "x86_64";
  args = [];
  env = λ name. none;
  app_default = none;
  sysctl = none;
  uname = none;
  lock_path = none;
  attempts = λ n. won;
  already_runs = true;
  menu_builds = true;
  tray_builds = true;
  updates = record { staged = false; has_local = true; removes = true };
  watcher = true;
}
