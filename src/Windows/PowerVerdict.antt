-- ===== src/Windows/PowerVerdict.antt =====
-- src-tauri/src/lib.rs: what `power_lock_verdict` says, in terms of the values that were read.
use klaayguard.Prelude.{
  ℕ, ◌≡◌, ◌⊎◌, inl, inr, Bool, true, false, not, ◌&&◌, List, [], ◌∷◌, Option, none, some, arith, In,
  All, any, Bool-cases, Option-cases, ap,
}
use klaayguard.Windows.{
  PowerLockValues, PowerSource, States, LockVerdict, candidates, soonest, judge, mains, is_unread,
  is_off, states, power_lock_verdict, judge_power, judge_readable, verdict, unreadable,
}
use klaayguard.Windows.Power.{
  LocksWithin, NeverLocks, applies, judge_off, judge_never, judge_next, source_locks, judge-locks,
  judge-denies,
}

abbrev locks_of : LockVerdict → Option Bool
locks_of v = v.locks

-- The firmware offers no state in which the host could lock.
abbrev pub has_no_state : States → Bool
has_no_state st = not st.standby_ok && (not st.hibernate_ok && not st.s0ix)

module _ (st : States) (src : PowerSource) (srcs : List PowerSource) where
  abbrev out : LockVerdict
  out = judge_readable st (src ∷ srcs)

  judge_readable-locks :
      out.locks ≡ some true
      → (d : ℕ) × (out.delay_seconds ≡ some d) × All (LocksWithin st d) (src ∷ srcs)
  judge_readable-locks h = elim (Bool-cases (any (is_unread st) (src ∷ srcs))) [
    | inl u ↦ absurd (cc (rw u at h))
    | inr u ↦ rw u (first u (rw u at h))
  ]
    where
      first :
          any (is_unread st) (src ∷ srcs) ≡ false
          → (judge st (src ∷ srcs) []).locks ≡ some true
          → (d : ℕ) × ((judge st (src ∷ srcs) []).delay_seconds ≡ some d)
            × All (LocksWithin st d) (src ∷ srcs)
      first u h = elim (Bool-cases (is_off src.lock)) [
        | inl off ↦ absurd (cc (ap locks_of (judge_off st src srcs [] off)))
        | inr on ↦ elim (Option-cases (soonest (candidates st src))) [
          | inl never ↦ absurd (cc (ap locks_of (judge_never st src srcs [] on never)))
          | inr (secs, fires) ↦
              let step = judge_next st src srcs [] on fires in
              let (d, e, later, all) = judge-locks st srcs secs [] (ground arith) (rw step at h) in
              (d, rw step e, (source_locks st src secs d (ground arith) on fires all.0, later))
        ]
      ]

  judge_readable-denies :
      out.locks ≡ some false
      → (any (is_unread st) (src ∷ srcs) ≡ false)
        × ((s : PowerSource) × In s (src ∷ srcs) × NeverLocks st s)
  judge_readable-denies h = elim (Bool-cases (any (is_unread st) (src ∷ srcs))) [
    | inl u ↦ absurd (cc (rw u at h))
    | inr u ↦ (u, judge-denies st (src ∷ srcs) [] (rw u at h))
  ]

module _ (p : PowerLockValues) where
  verdict_unread : states p ≡ none → power_lock_verdict p ≡ unreadable
  unfolding power_lock_verdict
  verdict_unread e = rw (e, power_lock_verdict)

  pub verdict_read : (st : States) → states p ≡ some st → power_lock_verdict p ≡ judge_power st p
  unfolding power_lock_verdict
  verdict_read st e = rw (e, power_lock_verdict)

  judge_power-none :
      (st : States) → has_no_state st ≡ true → judge_power st p ≡ verdict (some false) none
  judge_power-none st e = rw e

  judge_power-sources :
      (st : States)
      → has_no_state st ≡ false
      → (judge_power st p ≡ unreadable) ⊎ (judge_power st p ≡ judge_readable st (applies p))
  judge_power-sources st e = elim (Option-cases p.has_battery) [
    | inl b ↦ inl (rw (e, b))
    | inr (true, b) ↦ inr (rw (e, b))
    | inr (false, b) ↦ inr (rw (e, b))
  ]

  -- The power path answers that the host locks only with a delay within which, on mains and, on a
  -- host with a battery, on battery too, a password is asked for and a timeout of a power state
  -- that the firmware offers fires.
  pub power_lock_verdict-locks :
      (power_lock_verdict p).locks ≡ some true
      → (st : States) × (states p ≡ some st)
        × ((d : ℕ) × ((power_lock_verdict p).delay_seconds ≡ some d)
            × All (LocksWithin st d) (applies p))
  power_lock_verdict-locks h = elim (Option-cases (states p)) [
    | inl e ↦ absurd (cc (ap locks_of (verdict_unread e)))
    | inr (st, e) ↦ (st, e, rw (verdict_read st e) (judged st (rw (verdict_read st e) at h)))
  ]
    where
      judged :
          (st : States)
          → (judge_power st p).locks ≡ some true
          → (d : ℕ) × ((judge_power st p).delay_seconds ≡ some d)
            × All (LocksWithin st d) (applies p)
      judged st h = elim (Bool-cases (has_no_state st)) [
        | inl n ↦ absurd (cc (ap locks_of (judge_power-none st n)))
        | inr y ↦ elim (judge_power-sources st y) [
          | inl u ↦ absurd (cc)
          | inr r ↦ rw r (judge_readable-locks st (mains p) _ (rw r at h))
        ]
      ]

  -- The power path answers that the host does not lock only if the firmware offers no state to enter,
  -- or if every value that applies was read and, on some power source that applies, no password is
  -- asked for or every timeout is 0.
  pub power_lock_verdict-denies :
      (power_lock_verdict p).locks ≡ some false
      → (st : States) × (states p ≡ some st)
        × ((has_no_state st ≡ true)
            ⊎ ((any (is_unread st) (applies p) ≡ false)
                × ((s : PowerSource) × In s (applies p) × NeverLocks st s)))
  power_lock_verdict-denies h = elim (Option-cases (states p)) [
    | inl e ↦ absurd (cc (ap locks_of (verdict_unread e)))
    | inr (st, e) ↦ (st, e, judged st (rw (verdict_read st e) at h))
  ]
    where
      judged :
          (st : States)
          → (judge_power st p).locks ≡ some false
          → (has_no_state st ≡ true)
            ⊎ ((any (is_unread st) (applies p) ≡ false)
                × ((s : PowerSource) × In s (applies p) × NeverLocks st s))
      judged st h = elim (Bool-cases (has_no_state st)) [
        | inl n ↦ inl n
        | inr y ↦ elim (judge_power-sources st y) [
          | inl u ↦ absurd (cc)
          | inr r ↦ inr (judge_readable-denies st (mains p) _ (rw r at h))
        ]
      ]
