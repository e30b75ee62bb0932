-- ===== src/Prelude/Membership.antt =====
-- What the tests on lists say of their members.
use mathlib.Core.Path.{◌≡◌, refl, ap, sym}
use mathlib.Core.Logic.{◌⊎◌, inl, inr}
use mathlib.Core.Bool.{Bool, true, false}
use mathlib.Core.List.{List, [], ◌∷◌, ◌++◌}
use mathlib.Core.Option.{none, some}
use native.Mathlib.Omega.{arith}
use klaayguard.Prelude.Tests.{if◌then◌else◌, Bool-cases}
use klaayguard.Prelude.Lists.{In, any, find, filter, unwrap_or}

pub some_inj : {A : Type 0} {a b : A} → some a ≡ some b → a ≡ b
some_inj {A} {a} {b} h = ap (λ o. unwrap_or o a) h

module _ {A : Type 0} where
  pub In-append : (d : A) (xs ys : List A) → In d (xs ++ ys) → In d xs ⊎ In d ys
  In-append d [] ys h = inr h
  In-append d (x ∷ xs) ys (inl e) = inl (inl e)
  In-append d (x ∷ xs) ys (inr h) = elim (In-append d xs ys h) [
    | inl l ↦ inl (inr l)
    | inr r ↦ inr r
  ]

  pub append-In : (d : A) (xs ys : List A) → In d xs ⊎ In d ys → In d (xs ++ ys)
  append-In d [] ys (inl h) = absurd h
  append-In d [] ys (inr h) = h
  append-In d (x ∷ xs) ys (inl (inl e)) = inl e
  append-In d (x ∷ xs) ys (inl (inr h)) = inr (append-In d xs ys (inl h))
  append-In d (x ∷ xs) ys (inr h) = inr (append-In d xs ys (inr h))

  module _ (p : A → Bool) where
    pub any_of : (xs : List A) → any p xs ≡ true → (x : A) × In x xs × (p x ≡ true)
    any_of [] h = absurd (cc (h))
    any_of (x ∷ xs) h = elim (Bool-cases (p x)) [
      | inl e ↦ (x, inl refl, e)
      | inr e ↦ let (y, i, q) = any_of xs (ground arith) in (y, inr i, q)
    ]

    pub none_of : (xs : List A) → any p xs ≡ false → (x : A) → In x xs → p x ≡ false
    none_of [] h x i = absurd i
    none_of (y ∷ xs) h x (inl e) = rw e (ground arith)
    none_of (y ∷ xs) h x (inr i) = none_of xs (ground arith) x i

    find-cons :
        (b : Bool) (x d : A) (xs : List A)
        → p x ≡ b
        → (find p xs ≡ some d → In d xs × (p d ≡ true))
        → (if b then some x else find p xs) ≡ some d
        → In d (x ∷ xs) × (p d ≡ true)
    find-cons true x d xs e ih h = (inl (sym (some_inj h)), rw (← some_inj h) e)
    find-cons false x d xs e ih h = let (i, q) = ih h in (inr i, q)

    pub find_of : (xs : List A) (d : A) → find p xs ≡ some d → In d xs × (p d ≡ true)
    find_of [] d h = absurd (cc (h))
    find_of (x ∷ xs) d h = find-cons (p x) x d xs refl (find_of xs d) h

    pub find-none : (xs : List A) → find p xs ≡ none → any p xs ≡ false
    find-none [] h = refl
    find-none (x ∷ xs) h = ground (arith, find-none xs)

    filter-cons :
        (b : Bool) (x y : A) (xs : List A)
        → p x ≡ b
        → (In y (filter p xs) → In y xs × (p y ≡ true))
        → In y (if b then x ∷ filter p xs else filter p xs)
        → In y (x ∷ xs) × (p y ≡ true)
    filter-cons true x y xs e ih (inl q) = (inl q, rw q e)
    filter-cons true x y xs e ih (inr i) = let (m, q) = ih i in (inr m, q)
    filter-cons false x y xs e ih i = let (m, q) = ih i in (inr m, q)

    pub In-filter : (y : A) (xs : List A) → In y (filter p xs) → In y xs × (p y ≡ true)
    In-filter y [] h = absurd h
    In-filter y (x ∷ xs) h = filter-cons (p x) x y xs refl (In-filter y xs) h

    pub filter-In : (y : A) (xs : List A) → In y xs → p y ≡ true → In y (filter p xs)
    filter-In y [] i h = absurd i
    filter-In y (x ∷ xs) (inl e) h = rw (← e, h) (inl refl)
    filter-In y (x ∷ xs) (inr i) h = elim (Bool-cases (p x)) [
      | inl e ↦ rw e (inr (filter-In y xs i h))
      | inr e ↦ rw e (filter-In y xs i h)
    ]
