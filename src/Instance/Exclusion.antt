-- ===== src/Instance/Exclusion.antt =====
-- src-tauri/src/single_instance.rs: no two agents hold the claim.
use klaayguard.Prelude.{ℕ, some, ◌≡◌, ◌≢◌, refl, arith, sym, ◌∙◌, ap, unwrap_or}
use klaayguard.Instance.{
  Pc, locked, held, Files, System, update, Move, open_existing, open_new, lock, would_block,
  same_inode, other_inode, exit, Step, pick, remove, Reach, here, next,
}

-- a process that has won has the inode that the name has, and no other has it locked
record Inv (fs : Files) (pc : ℕ → Pc) : Type 0 where
  named : (j i : ℕ) → pc j ≡ held i → fs.path ≡ some i
  alone : (j k i : ℕ) → pc j ≡ held i → pc k ≢ locked i
  single : (j k i : ℕ) → pc j ≡ locked i → pc k ≡ locked i → j ≡ k
  only : (j k i : ℕ) → pc j ≡ held i → pc k ≡ held i → j ≡ k

module _ {fs : Files} {pc : ℕ → Pc} (inv : Inv fs pc) (a : ℕ) where
  open inv use {named, alone, single, only}

  Move-named :
      {p p' : Pc} {fs' : Files}
      → Move fs pc p fs' p'
      → pc a ≡ p
      → (j i : ℕ) → update pc a p' j ≡ held i
      → fs'.path ≡ some i
  Move-named (open_existing e) h j i q = ground (arith, named j i)
  Move-named (open_new e) h j i q = ground (arith, named j i)
  Move-named (lock f g) h j i q = ground (arith, named j i)
  Move-named would_block h j i q = ground (arith, named j i)
  Move-named (same_inode e) h j i q = ground (arith, named j i)
  Move-named other_inode h j i q = ground (arith, named j i)
  Move-named exit h j i q = ground (arith, named j i)

  Move-alone :
      {p p' : Pc} {fs' : Files}
      → Move fs pc p fs' p'
      → pc a ≡ p
      → (j k i : ℕ) → update pc a p' j ≡ held i
      → update pc a p' k ≢ locked i
  Move-alone (open_existing e) h j k i q r = ground (arith, alone j k i)
  Move-alone (open_new e) h j k i q r = ground (arith, alone j k i)
  Move-alone (lock f g) h j k i q r = ground (arith, alone j k i, g j)
  Move-alone would_block h j k i q r = ground (arith, alone j k i)
  Move-alone (same_inode e) h j k i q r = ground (arith, alone j k i, single a k i)
  Move-alone other_inode h j k i q r = ground (arith, alone j k i)
  Move-alone exit h j k i q r = ground (arith, alone j k i)

  Move-single :
      {p p' : Pc} {fs' : Files}
      → Move fs pc p fs' p'
      → pc a ≡ p
      → (j k i : ℕ) → update pc a p' j ≡ locked i
      → update pc a p' k ≡ locked i
      → j ≡ k
  Move-single (open_existing e) h j k i q r = ground (arith, single j k i)
  Move-single (open_new e) h j k i q r = ground (arith, single j k i)
  Move-single (lock f g) h j k i q r = ground (arith, single j k i, f j, f k)
  Move-single would_block h j k i q r = ground (arith, single j k i)
  Move-single (same_inode e) h j k i q r = ground (arith, single j k i)
  Move-single other_inode h j k i q r = ground (arith, single j k i)
  Move-single exit h j k i q r = ground (arith, single j k i)

  Move-only :
      {p p' : Pc} {fs' : Files}
      → Move fs pc p fs' p'
      → pc a ≡ p
      → (j k i : ℕ) → update pc a p' j ≡ held i
      → update pc a p' k ≡ held i
      → j ≡ k
  Move-only (open_existing e) h j k i q r = ground (arith, only j k i)
  Move-only (open_new e) h j k i q r = ground (arith, only j k i)
  Move-only (lock f g) h j k i q r = ground (arith, only j k i)
  Move-only would_block h j k i q r = ground (arith, only j k i)
  Move-only (same_inode e) h j k i q r = ground (arith, only j k i, alone j a i, alone k a i)
  Move-only other_inode h j k i q r = ground (arith, only j k i)
  Move-only exit h j k i q r = ground (arith, only j k i)

Step-Inv : {s t : System} → Step s t → Inv s.files s.pc → Inv t.files t.pc
Step-Inv (pick a m) inv = record {
  named = Move-named inv a m refl;
  alone = Move-alone inv a m refl;
  single = Move-single inv a m refl;
  only = Move-only inv a m refl;
}
Step-Inv (remove none_held) inv = record {
  named = λ j i q. absurd (none_held j i q);
  alone = inv.alone;
  single = inv.single;
  only = inv.only;
}

Reach-Inv : {s : System} → Reach s → Inv s.files s.pc
Reach-Inv here = record {
  named = λ j i q. absurd (cc q);
  alone = λ j k i q r. absurd (cc q);
  single = λ j k i q r. absurd (cc q);
  only = λ j k i q r. absurd (cc q);
}
Reach-Inv (next r s) = Step-Inv s (Reach-Inv r)

-- However the system calls of the processes interleave, and though the name of the lock file may be
-- removed while nobody holds the claim: two processes that hold the claim are one, and its inode is
-- that of the name.
pub one_agent :
    {s : System} (j k a b : ℕ)
    → Reach s
    → s.pc j ≡ held a
    → s.pc k ≡ held b
    → (j ≡ k) × (s.files.path ≡ some a)
one_agent {s} j k a b r p q =
    let inv = Reach-Inv r in
    let here_a : s.files.path ≡ some a = inv.named j a p in
    let here_b : s.files.path ≡ some b = inv.named k b q in
    let same : b ≡ a = ap (λ o. unwrap_or o a) (sym here_b ∙ here_a) in
    (inv.only j k a p (q ∙ ap held same), here_a)
