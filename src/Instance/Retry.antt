-- ===== src/Instance/Retry.antt =====
-- src-tauri/src/single_instance.rs: the retries of `claim_agent_lock`.
use native.Mathlib.Nat.{add-zero}
use klaayguard.Prelude.{
  ℕ, zero, suc, ◌+◌, ◌<◌, ◌≡◌, refl, ◌⊎◌, inl, inr, Option, none, some, arith, ap, max, ◌∙◌, sym,
}
use klaayguard.Instance.{
  Attempt, won, busy, broken, Claim, held_lock, taken, unavailable, claim_loop, claim_agent_lock,
}

-- what an attempt settles
abbrev pub settled : Attempt → Option Claim
settled won = some held_lock
settled busy = none
settled (broken e) = some (unavailable e)

-- From attempt `n` on, with `left` attempts: every attempt before the `stop`th is busy, and that one
-- settles the claim, or there is none left and the claim is taken.
pub record Settles (tries : ℕ → Attempt) (n left : ℕ) (c : Claim) : Type 0 where
  pub stop : ℕ
  pub earlier : (k : ℕ) → k < stop → tries (n + k) ≡ busy
  pub ends : ((stop ≡ left) × (c ≡ taken)) ⊎ ((stop < left) × (settled (tries (n + stop)) ≡ some c))

at_once :
    (tries : ℕ → Attempt) (n left : ℕ) (c : Claim)
    → settled (tries n) ≡ some c
    → Settles tries n (suc left) c
at_once tries n left c h = record {
  stop = 0;
  earlier = λ k l. absurd (omega arith);
  ends = inr (omega arith, rw add-zero h);
}

module _ (tries : ℕ → Attempt) (n left : ℕ) (c : Claim) where
  shift : (k : ℕ) → n + 1 + k ≡ n + suc k
  shift k = omega arith

  later : tries n ≡ busy → Settles tries (n + 1) left c → Settles tries n (suc left) c
  later h s = record { stop = suc s.stop; earlier = before; ends = done s.ends }
    where
      before : (k : ℕ) → k < suc s.stop → tries (n + k) ≡ busy
      before zero l = rw add-zero h
      before (suc k) l = ap tries (sym (shift k)) ∙ s.earlier k (omega arith)

      done :
          ((s.stop ≡ left) × (c ≡ taken))
            ⊎ ((s.stop < left) × (settled (tries (n + 1 + s.stop)) ≡ some c))
          → ((suc s.stop ≡ suc left) × (c ≡ taken))
            ⊎ ((suc s.stop < suc left) × (settled (tries (n + suc s.stop)) ≡ some c))
      done (inl (a, b)) = inl (ap suc a, b)
      done (inr (a, b)) = inr (omega arith, ap (λ x. settled (tries x)) (sym (shift s.stop)) ∙ b)

step_Settles :
    (tries : ℕ → Attempt) (n left : ℕ)
    → Settles tries (n + 1) left (claim_loop tries (n + 1) left)
    → (a : Attempt) → tries n ≡ a
    → Settles tries n (suc left) (elim a [
      | won ↦ held_lock
      | busy ↦ claim_loop tries (n + 1) left
      | broken e ↦ unavailable e
    ])
step_Settles tries n left rest won h = at_once tries n left held_lock (ap settled h)
step_Settles tries n left rest busy h = later tries n left _ h rest
step_Settles tries n left rest (broken e) h = at_once tries n left (unavailable e) (ap settled h)

claim_loop-Settles :
    (tries : ℕ → Attempt) (n left : ℕ) → Settles tries n left (claim_loop tries n left)
unfolding claim_loop
claim_loop-Settles tries n zero = record {
  stop = 0;
  earlier = λ k l. absurd (omega arith);
  ends = inl (refl, refl);
}
claim_loop-Settles tries n (suc left) =
    step_Settles tries n left (claim_loop-Settles tries (n + 1) left) (tries n) refl

-- A claim tries again exactly while the lock is busy and attempts are left, at least one in all: the
-- first attempt that is not busy decides it, won or broken, and if there is none it is taken.
pub claim_agent_lock-Settles :
    (tries : ℕ → Attempt) (attempts : ℕ)
    → Settles tries 0 (max attempts 1) (claim_agent_lock tries attempts)
unfolding claim_agent_lock
claim_agent_lock-Settles tries attempts = claim_loop-Settles tries 0 (max attempts 1)
