-- ===== src/Http/Retry.antt =====
-- The retry ladder: how often a request is sent, how long it waits, and which answer is returned.
use klaayguard.Prelude.{
  ℕ, zero, suc, ◌+◌, ◌≤◌, ◌<◌, ◌≡◌, refl, ◌⊎◌, inl, inr, true, false, List, [], ◌∷◌, arith, length,
  take, Bool-cases, ap,
}
use native.Mathlib.Nat.{add-zero}
use klaayguard.Text.{Text}
use klaayguard.Http.{
  Outcome, Sent, returned, is_retryable, once, after_sleep, send_loop, send_with_retry,
  retry_delays,
}

-- From attempt `n` on, with these delays left: the call sends once more than it sleeps, it sleeps
-- the first of the delays, in order, it returns the answer to its last attempt, each earlier answer
-- was transient, and the last one was not unless the delays ran out.
pub record Climbs (net : ℕ → Outcome) (n : ℕ) (delays : List ℕ) (s : Sent) : Type 0 where
  pub one_more : s.sends ≡ length s.slept + 1
  pub bounded : s.sends ≤ length delays + 1
  pub in_order : s.slept ≡ take (length s.slept) delays
  pub last : s.result ≡ returned (net (n + length s.slept))
  pub earlier : (k : ℕ) → k < length s.slept → is_retryable (net (n + k)) ≡ true
  pub stopped : (is_retryable (net (n + length s.slept)) ≡ false) ⊎ (length s.slept ≡ length delays)

once-Climbs :
    (net : ℕ → Outcome) (n : ℕ) (delays : List ℕ)
    → (is_retryable (net n) ≡ false) ⊎ (0 ≡ length delays)
    → Climbs net n delays (once (net n))
once-Climbs net n delays stop = record {
  one_more = refl;
  bounded = omega arith;
  in_order = refl;
  last = ap (λ (x : ℕ). returned (net x)) (omega arith);
  earlier = λ k h. absurd (omega arith);
  stopped = rw add-zero stop;
}

module _ (net : ℕ → Outcome) (n d : ℕ) (ds : List ℕ) (s : Sent)
    (later : Climbs net (n + 1) ds s) where
  open later use {one_more, bounded, in_order, last, earlier, stopped}

  shift : (k : ℕ) → n + 1 + k ≡ n + suc k
  shift k = omega arith

  earlier_too :
      is_retryable (net n) ≡ true
      → (k : ℕ) → k < suc (length s.slept)
      → is_retryable (net (n + k)) ≡ true
  earlier_too e zero h = rw add-zero e
  earlier_too e (suc k) h = rw (← shift k) (earlier k (omega arith))

  after_sleep-Climbs : is_retryable (net n) ≡ true → Climbs net n (d ∷ ds) (after_sleep d s)
  after_sleep-Climbs e = record {
    one_more = omega arith;
    bounded = omega arith;
    in_order = ap (λ x. d ∷ x) in_order;
    last = rw (← shift (length s.slept)) last;
    earlier = earlier_too e;
    stopped = rw (← shift (length s.slept)) (more stopped);
  }
    where
      more :
          {A : Type 0}
          → A ⊎ (length s.slept ≡ length ds)
          → A ⊎ (suc (length s.slept) ≡ suc (length ds))
      more (inl a) = inl a
      more (inr q) = inr (ap suc q)

send_loop-Climbs :
    (net : ℕ → Outcome) (n : ℕ) (delays : List ℕ) → Climbs net n delays (send_loop net n delays)
unfolding send_loop
send_loop-Climbs net n [] = once-Climbs net n [] (inr refl)
send_loop-Climbs net n (d ∷ ds) = elim (Bool-cases (is_retryable (net n))) [
  | inl e ↦ rw e (after_sleep-Climbs net n d ds _ (send_loop-Climbs net (n + 1) ds) e)
  | inr e ↦ rw e (once-Climbs net n (d ∷ ds) (inl e))
]

-- A call with a request that can be cloned sends one, two or three times, sleeps 60 and then 120
-- seconds between, returns the answer to its last attempt, and goes on exactly while the answer is a
-- network error, a 429 or a 5xx and an attempt is left.
pub send_with_retry-Climbs :
    (label : Text) (net : ℕ → Outcome)
    → Climbs net 0 (60 ∷ 120 ∷ []) (send_with_retry true label net)
unfolding send_with_retry
send_with_retry-Climbs label net = send_loop-Climbs net 0 retry_delays
