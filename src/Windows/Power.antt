-- ===== src/Windows/Power.antt =====
-- The power path: when it says that the host locks, and when it says that it does not.
use klaayguard.Prelude.{
  ℕ, ◌≤◌, ◌<◌, ◌≡◌, refl, ◌⊎◌, inl, inr, Bool, true, false, List, [], ◌∷◌, ◌++◌, Option, none, some,
  arith, In, All, any, Bool-cases, Option-cases, max, ap,
}
use klaayguard.Windows.{
  PowerLockValues, PowerSource, States, LockVerdict, candidates, sooner, soonest, later, maximum,
  verdict, judge, mains, battery, is_unread, is_off,
}

-- On this power source the host asks for the password, and a timeout of a state that it has fires
-- within `d` seconds.
abbrev pub LocksWithin : States → ℕ → PowerSource → Type 0
LocksWithin st d src =
    (src.lock ≡ some true) × ((t : ℕ) × In (some t) (candidates st src) × (0 < t) × (t ≤ d))

-- On this power source the host asks for no password, or every timeout of its states is 0, which
-- means never.
abbrev pub NeverLocks : States → PowerSource → Type 0
NeverLocks st src = (src.lock ≡ some false) ⊎ ((t : ℕ) → In (some t) (candidates st src) → t ≡ 0)

-- The power sources that apply: a host with no battery has one.
abbrev pub applies : PowerLockValues → List PowerSource
applies p = mains p ∷ (elim p.has_battery [ some true ↦ battery p ∷ [] | _ ↦ [] ])

soonest-In : (ts : List (Option ℕ)) (b : ℕ) → soonest ts ≡ some b → In (some b) ts × (0 < b)
unfolding soonest
soonest-In [] b h = cc
soonest-In (none ∷ ts) b h = let (i, pos) = soonest-In ts b h in (inr i, pos)
soonest-In (some t ∷ ts) b h = go (λ c. soonest-In ts c) (soonest ts) refl h
  where
    go :
        ((c : ℕ) → soonest ts ≡ some c → In (some c) ts × (0 < c))
        → (o : Option ℕ) → soonest ts ≡ o
        → sooner (some t) o ≡ some b
        → In (some b) (some t ∷ ts) × (0 < b)
    go ih none q h = ground arith
    go ih (some c) q h = ground (arith, ih c)

soonest-none : (ts : List (Option ℕ)) → soonest ts ≡ none → (t : ℕ) → In (some t) ts → t ≡ 0
unfolding soonest
soonest-none [] h t i = absurd i
soonest-none (none ∷ ts) h t (inl q) = cc
soonest-none (none ∷ ts) h t (inr i) = soonest-none ts h t i
soonest-none (some s ∷ ts) h t (inl q) = ground arith
soonest-none (some s ∷ ts) h t (inr i) = soonest-none ts (rest (soonest ts) h) t i
  where
    rest : (o : Option ℕ) → sooner (some s) o ≡ none → o ≡ none
    rest none q = refl
    rest (some b) q = ground arith

All-le_trans : (ws : List ℕ) (a b : ℕ) → a ≤ b → All (λ x. x ≤ a) ws → All (λ x. x ≤ b) ws
All-le_trans [] a b h all = tt
All-le_trans (w ∷ ws) a b h all = (omega arith, All-le_trans ws a b h all.1)

maximum_bounds :
    (w : ℕ) (ws : List ℕ) → (d : ℕ) × (maximum (w ∷ ws) ≡ some d) × All (λ x. x ≤ d) (w ∷ ws)
unfolding maximum
maximum_bounds w [] = (w, refl, omega arith)
maximum_bounds w (v ∷ vs) =
    let (d, e, all) = maximum_bounds v vs in
    (max w d, ap (later w) e, (omega arith, All-le_trans (v ∷ vs) d (max w d) (omega arith) all))

All-last :
    (ws : List ℕ) (d v : ℕ) → All (λ x. x ≤ d) (ws ++ (v ∷ [])) → All (λ x. x ≤ d) ws × (v ≤ d)
All-last [] d v all = (tt, all.0)
All-last (w ∷ ws) d v all = ((all.0, (All-last ws d v all.1).0), (All-last ws d v all.1).1)

module _ (st : States) where
  module _ (src : PowerSource) (rest : List PowerSource) (worst : List ℕ) where
    pub judge_off : is_off src.lock ≡ true → judge st (src ∷ rest) worst ≡ verdict (some false) none
    unfolding judge
    judge_off h = rw h

    pub judge_never :
        is_off src.lock ≡ false
        → soonest (candidates st src) ≡ none
        → judge st (src ∷ rest) worst ≡ verdict (some false) (some 0)
    unfolding judge
    judge_never h k = rw (h, k)

    pub judge_next :
        {secs : ℕ}
        → is_off src.lock ≡ false
        → soonest (candidates st src) ≡ some secs
        → judge st (src ∷ rest) worst ≡ judge st rest (worst ++ (secs ∷ []))
    unfolding judge
    judge_next h k = rw (h, k)

  pub source_locks :
      (src : PowerSource) (secs d : ℕ)
      → is_unread st src ≡ false
      → is_off src.lock ≡ false
      → soonest (candidates st src) ≡ some secs
      → secs ≤ d
      → LocksWithin st d src
  source_locks src secs d u o k le =
      let (i, pos) = soonest-In (candidates st src) secs k in (ground arith, (secs, i, pos, le))

  pub judge-locks :
      (srcs : List PowerSource) (w : ℕ) (ws : List ℕ)
      → any (is_unread st) srcs ≡ false
      → (judge st srcs (w ∷ ws)).locks ≡ some true
      → (d : ℕ) × ((judge st srcs (w ∷ ws)).delay_seconds ≡ some d)
        × All (LocksWithin st d) srcs
        × All (λ x. x ≤ d) (w ∷ ws)
  judge-locks [] w ws u h = let (d, e, all) = maximum_bounds w ws in (d, unfold judge in e, tt, all)
  judge-locks (src ∷ srcs) w ws u h = elim (Bool-cases (is_off src.lock)) [
    | inl off ↦ absurd (cc (ap (λ (v : LockVerdict). v.locks) (judge_off src srcs (w ∷ ws) off)))
    | inr on ↦ elim (Option-cases (soonest (candidates st src))) [
      | inl never ↦
          absurd (cc (ap (λ (v : LockVerdict). v.locks) (judge_never src srcs (w ∷ ws) on never)))
      | inr (secs, fires) ↦
          let step = judge_next src srcs (w ∷ ws) on fires in
          let (d, e, later, all) =
            judge-locks srcs w (ws ++ (secs ∷ [])) (ground arith) (rw step at h) in
          let (before, here) = All-last (w ∷ ws) d secs all in
          (d, rw step e, (source_locks src secs d (ground arith) on fires here, later), before)
    ]
  ]

  pub judge-denies :
      (srcs : List PowerSource) (worst : List ℕ)
      → (judge st srcs worst).locks ≡ some false
      → (src : PowerSource) × In src srcs × NeverLocks st src
  judge-denies [] worst h = absurd (unfold judge in cc)
  judge-denies (src ∷ srcs) worst h = elim (Bool-cases (is_off src.lock)) [
    | inl off ↦ (src, inl refl, inl (off_lock src.lock off))
    | inr on ↦ elim (Option-cases (soonest (candidates st src))) [
      | inl never ↦ (src, inl refl, inr (soonest-none (candidates st src) never))
      | inr (secs, fires) ↦
          let (s, i, n) =
            judge-denies srcs (worst ++ (secs ∷ []))
              (rw (judge_next src srcs worst on fires) at h) in
          (s, inr i, n)
    ]
  ]
    where
      off_lock : (o : Option Bool) → is_off o ≡ true → o ≡ some false
      off_lock none q = cc
      off_lock (some true) q = cc
      off_lock (some false) q = refl
