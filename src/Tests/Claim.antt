-- ===== src/Tests/Claim.antt =====
-- A run of the claim of the single instance.
use native.Mathlib.Decide.{ℕ_discrete}
use klaayguard.Prelude.{zero, ◌≡◌, refl, some, arith}
use klaayguard.Instance.{
  System, Reach, here, next, pick, start, held, locked, update, open_new, lock, same_inode,
}
use klaayguard.Instance.{Attempt, won, busy, claim_agent_lock}
use klaayguard.Instance.Exclusion.{one_agent}

-- process 0 has won the claim of the first inode
abbrev claimed : System
claimed = record {
  files = record { path = some 0; fresh = 1 };
  pc = update (update (update start.pc 0 (klaayguard.Instance.opened 0)) 0 (locked 0)) 0 (held 0);
}

claims : Reach claimed
unfolding ℕ_discrete
claims =
    let begun : Reach start = here in
    let opening = next begun (pick 0 (open_new refl)) in
    let locking = next opening (pick 0 (lock (λ j q. ground arith) (λ j q. ground arith))) in
    next locking (pick 0 (same_inode refl))

one_agent_example : (zero ≡ zero) × (claimed.files.path ≡ some 0)
unfolding ℕ_discrete
one_agent_example = one_agent 0 0 0 0 claims refl refl
