-- ===== src/Instance.antt =====
-- src-tauri/src/single_instance.rs: the lock that one agent holds. `try_claim` is run by any number of
-- processes, one system call at a time, on a lock file whose name may be removed; `flock` itself is
-- the rule that an inode is locked only while no other process has it locked. Errors of the system
-- calls, after which a process holds nothing, are the moves that give up.
use mathlib.Core.Logic.{ite}
use native.Mathlib.Decide.{ℕ_discrete}
use klaayguard.Text.{Text}
use klaayguard.Prelude.{ℕ, zero, suc, max, ◌+◌, Option, none, some, ◌≡◌, ◌≢◌}
pub mod Exclusion
pub mod Retry

-- Where a process stands in `try_claim`, with the inode of the file that it has opened.
pub data Pc : Type 0 where
  idle : Pc
  opened : (inode : ℕ) → Pc
  locked : (inode : ℕ) → Pc  -- between `Flock::lock` and `same_inode`
  held : (inode : ℕ) → Pc  -- the claim was won

pub record Files : Type 0 where
  pub path : Option ℕ  -- the inode that the name of the lock file has
  pub fresh : ℕ  -- the next new inode

abbrev pub update : (ℕ → Pc) → ℕ → Pc → ℕ → Pc
update f i p j = ite (ℕ_discrete i j) p (f j)

pub data Move (fs : Files) (pc : ℕ → Pc) : Pc → Files → Pc → Type 0 where
  open_existing : {i : ℕ} → fs.path ≡ some i → Move fs pc idle fs (opened i)
  open_new :
      fs.path ≡ none
      → Move fs pc idle (record { path = some fs.fresh; fresh = fs.fresh + 1 }) (opened fs.fresh)
  lock :
      {i : ℕ}
      → ((j : ℕ) → pc j ≢ locked i)
      → ((j : ℕ) → pc j ≢ held i)
      → Move fs pc (opened i) fs (locked i)
  would_block : {i : ℕ} → Move fs pc (opened i) fs idle
  same_inode : {i : ℕ} → fs.path ≡ some i → Move fs pc (locked i) fs (held i)
  other_inode : {i : ℕ} → Move fs pc (locked i) fs idle
  exit : {i : ℕ} → Move fs pc (held i) fs idle

pub record System : Type 0 where
  pub files : Files
  pub pc : ℕ → Pc

-- No process has won the claim.
abbrev pub Unclaimed : (ℕ → Pc) → Type 0
Unclaimed pc = (j i : ℕ) → pc j ≢ held i

-- A process moves, or somebody removes the name of the lock file while no agent holds the claim.
pub data Step (s : System) : System → Type 0 where
  pick :
      (i : ℕ) {fs : Files} {p : Pc}
      → Move s.files s.pc (s.pc i) fs p
      → Step s (record { files = fs; pc = update s.pc i p })
  remove : Unclaimed s.pc → Step s (record { files = record s.files { path = none }; pc = s.pc })

abbrev pub start : System
start = record { files = record { path = none; fresh = 0 }; pc = λ _. idle }

pub data Reach : System → Type 0 where
  here : Reach start
  next : {s t : System} → Reach s → Step s t → Reach t

-- What one `try_claim` gives: the lock, `Ok(None)`, or an error.
pub data Attempt : Type 0 where
  won : Attempt
  busy : Attempt
  broken : Text → Attempt

pub data Claim : Type 0 where
  held_lock : Claim
  taken : Claim
  unavailable : Text → Claim

-- the loop, with the attempts that are left
unfoldable pub claim_loop : (ℕ → Attempt) → ℕ → ℕ → Claim
claim_loop tries attempt zero = taken
claim_loop tries attempt (suc left) =
    let rest = claim_loop tries (attempt + 1) left in
    elim (tries attempt) [ won ↦ held_lock | busy ↦ rest | broken e ↦ unavailable e ]

unfoldable pub claim_agent_lock : (ℕ → Attempt) → ℕ → Claim
claim_agent_lock tries attempts = claim_loop tries 0 (max attempts 1)
