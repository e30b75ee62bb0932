-- ===== src/Background/Wakeup.antt =====
-- src-tauri/src/lib.rs: `spawn_background_loop` beside the threads that acquire a token
-- (`adopt_unless_rejected` and `startup_blocking_work`, which write the token and then notify) and those
-- that drop it, one access to the shared state at a time. `token_acquired` is a `Notify` of tokio, which
-- keeps one permit until a `notified` takes it.
use mathlib.Core.Logic.{ite}
use native.Mathlib.Decide.{ℕ_discrete}
use klaayguard.Prelude.{
  ℕ, Bool, true, false, Option, none, some, ◌≡◌, ◌≢◌, ◌⊎◌, inl, inr, refl, arith,
}
use klaayguard.Text.{Text}

-- where the loop stands: before its first token, at its `select!`, behind it but before `run_cycle` has
-- read the token, or in the cycle with the token that it read
pub data At : Type 0 where
  starting : At
  selecting : At
  woken : At
  cycling : Option Text → At

-- a thread that acquires tokens
pub data Pc : Type 0 where
  idle : Pc
  written : Pc  -- between the write of the token and `notify_one`

pub record System : Type 0 where
  pub auth_token : Option Text
  pub token_acquired : Bool  -- the permit
  pub loop : At
  pub pc : ℕ → Pc
  pub unseen : Bool  -- a token was written since a cycle last read it; no part of the program

abbrev pub update : (ℕ → Pc) → ℕ → Pc → ℕ → Pc
update f i p j = ite (ℕ_discrete i j) p (f j)

pub data Move (s : System) : System → Type 0 where
  acquire :
      (i : ℕ) (t : Text)
      → s.pc i ≡ idle
      → Move s (record s { auth_token = some t; pc = update s.pc i written; unseen = true })
  notify_one :
      (i : ℕ)
      → s.pc i ≡ written
      → Move s (record s { token_acquired = true; pc = update s.pc i idle })
  clear : Move s (record s { auth_token = none })
  started : s.loop ≡ starting → s.auth_token ≢ none → Move s (record s { loop = selecting })
  tick : s.loop ≡ selecting → Move s (record s { loop = woken })
  notified :
      s.loop ≡ selecting
      → s.token_acquired ≡ true
      → Move s (record s { token_acquired = false; loop = woken })
  read : s.loop ≡ woken → Move s (record s { loop = cycling s.auth_token; unseen = false })
  ended : (t : Option Text) → s.loop ≡ cycling t → Move s (record s { loop = selecting })

abbrev pub start : System
start = record {
  auth_token = none;
  token_acquired = false;
  loop = starting;
  pc = λ _. idle;
  unseen = false;
}

pub data Reach : System → Type 0 where
  here : Reach start
  next : {s t : System} → Reach s → Move s t → Reach t

abbrev pub Notifying : (ℕ → Pc) → Type 0
Notifying pc = (j : ℕ) × (pc j ≡ written)

-- why a token that was written is still going to be read
abbrev Due : System → Type 0
Due s = (s.token_acquired ≡ true) ⊎ ((s.loop ≡ woken) ⊎ Notifying s.pc)

Move-Due : {s t : System} → Move s t → (s.unseen ≡ true → Due s) → t.unseen ≡ true → Due t
Move-Due (acquire i t e) h u = inr (inr (i, ground arith))
Move-Due (notify_one i e) h u = inl refl
Move-Due clear h u = h u
Move-Due {s} (started e n) h u = elim (h u) [
  | inl p ↦ inl p
  | inr (inl w) ↦ absurd (cc (e, w))
  | inr (inr n) ↦ inr (inr n)
]
Move-Due (tick e) h u = inr (inl refl)
Move-Due (notified e p) h u = inr (inl refl)
Move-Due (read e) h u = absurd (cc u)
Move-Due {s} (ended c e) h u = elim (h u) [
  | inl p ↦ inl p
  | inr (inl w) ↦ absurd (cc (e, w))
  | inr (inr n) ↦ inr (inr n)
]

Reach-Due : {s : System} → Reach s → s.unseen ≡ true → Due s
Reach-Due here u = absurd (cc u)
Reach-Due (next r m) u = Move-Due m (Reach-Due r) u

-- No wakeup is lost: however the threads and the loop interleave, whenever the loop waits at its
-- `select!` and a token was acquired that no cycle has read since, the permit is there, with which the
-- loop wakes at once, or the thread that acquired one is still before its `notify_one`.
pub token_acquired-kept :
    {s : System}
    → Reach s
    → s.loop ≡ selecting
    → s.unseen ≡ true
    → (s.token_acquired ≡ true) ⊎ Notifying s.pc
token_acquired-kept r e u = elim (Reach-Due r u) [
  | inl p ↦ inl p
  | inr (inl w) ↦ absurd (cc (e, w))
  | inr (inr n) ↦ inr n
]
