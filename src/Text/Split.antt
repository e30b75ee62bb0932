-- ===== src/Text/Split.antt =====
-- Laws of `split`: the pieces of a concatenation, and words that stand between separators.
use klaayguard.Prelude.{
  ℕ, ◌≡◌, ◌≢◌, refl, ◌++◌, ◌∷◌, [], Bool, true, false, List, arith, all, any, any-append,
  Bool-cases, inl, inr, ap, sym, subst, append-nil, append_assoc,
}
use klaayguard.Text.{Text, push_first, split_by}

module _ (p : ℕ → Bool) where
  split_by-ne-nil : (s : Text) → split_by p s ≢ []
  unfolding split_by
  split_by-ne-nil [] = λ h. cc
  split_by-ne-nil (c ∷ s) = elim (Bool-cases (p c)) [
    | inl e ↦ rw e (λ h. cc)
    | inr e ↦ rw e (push-ne-nil (split_by p s))
  ]
    where
      push-ne-nil : (ws : List Text) → push_first c ws ≢ []
      push-ne-nil [] = λ h. cc
      push-ne-nil (w ∷ ws) = λ h. cc

  push_first-append :
      (c : ℕ) (ws vs : List Text) → ws ≢ [] → push_first c (ws ++ vs) ≡ push_first c ws ++ vs
  push_first-append c [] vs h = absurd (h refl)
  push_first-append c (w ∷ ws) vs h = refl

  -- A separator splits the pieces of what stands before it from those of what stands behind it.
  pub split_by-append :
      (s t : Text) (c : ℕ) → p c ≡ true → split_by p (s ++ (c ∷ t)) ≡ split_by p s ++ split_by p t
  unfolding split_by
  split_by-append [] t c h = rw h
  split_by-append (d ∷ s) t c h = elim (Bool-cases (p d)) [
    | inl e ↦ rw e (rw (split_by-append s t c h))
    | inr e ↦ rw e (rw (split_by-append s t c h) (push_first-append d _ _ (split_by-ne-nil s)))
  ]

  pub split_by_word : (w : Text) → any p w ≡ false → split_by p w ≡ w ∷ []
  unfolding split_by
  split_by_word [] h = refl
  split_by_word (c ∷ w) h = ground (arith, split_by_word w)

  module _ (q : Text → Bool) (blank : q [] ≡ false) where
    -- Separators alone hold no word.
    any-split_by_separators : (t : Text) → all p t ≡ true → any q (split_by p t) ≡ false
    unfolding split_by
    any-split_by_separators [] h = ground arith
    any-split_by_separators (c ∷ t) h = ground (arith, any-split_by_separators t)

    pub any-split_by-append_end :
        (s t : Text) → all p t ≡ true → any q (split_by p (s ++ t)) ≡ any q (split_by p s)
    any-split_by-append_end s [] h = rw append-nil
    any-split_by-append_end s (c ∷ t) h = ground (
      arith,
      split_by-append s t c,
      any-append q (split_by p s) (split_by p t),
      any-split_by_separators t,
    )

    pub any-split_by-append_start :
        (t s : Text) → all p t ≡ true → any q (split_by p (t ++ s)) ≡ any q (split_by p s)
    unfolding split_by
    any-split_by-append_start [] s h = refl
    any-split_by-append_start (c ∷ t) s h = ground (arith, any-split_by-append_start t s)

-- The text is empty, or its last (its first) character passes.
abbrev pub ends_in : (ℕ → Bool) → Text → Bool
ends_in p [] = true
ends_in p (c ∷ []) = p c
ends_in p (c ∷ d ∷ s) = ends_in p (d ∷ s)

abbrev pub begins_with : (ℕ → Bool) → Text → Bool
begins_with p [] = true
begins_with p (c ∷ s) = p c

module _ (p : ℕ → Bool) (q : Text → Bool) where
  any-split_by_first :
      (w b : Text)
      → any p w ≡ false
      → q w ≡ true
      → begins_with p b ≡ true
      → any q (split_by p (w ++ b)) ≡ true
  any-split_by_first w [] clean hit e = rw append-nil (rw (split_by_word p w clean) (ground arith))
  any-split_by_first w (c ∷ b) clean hit e =
      rw (split_by-append p w b c e) (rw (split_by_word p w clean) (ground arith))

  ends_in_split :
      (c : ℕ) (a : Text)
      → ends_in p (c ∷ a) ≡ true
      → (a' : Text) × (e : ℕ) × (c ∷ a ≡ a' ++ (e ∷ [])) × (p e ≡ true)
  ends_in_split c [] h = ([], c, refl, h)
  ends_in_split c (d ∷ a) h =
      let (a', e, split, sep) = ends_in_split d a h in (c ∷ a', e, ap (◌∷◌ c) split, sep)

  -- A whole word of the text is one of its pieces.
  pub any-split_by_word :
      (a w b : Text)
      → any p w ≡ false
      → q w ≡ true
      → ends_in p a ≡ true
      → begins_with p b ≡ true
      → any q (split_by p (a ++ (w ++ b))) ≡ true
  any-split_by_word [] w b clean hit l r = any-split_by_first w b clean hit r
  any-split_by_word (c ∷ a) w b clean hit l r =
      let (a', e, split, sep) = ends_in_split c a l in
      subst (λ x. any q (split_by p (x ++ (w ++ b))) ≡ true) (sym split)
        (rw append_assoc (
          rw (split_by-append p a' (w ++ b) e sep)
            (rw any-append (ground (arith, any-split_by_first w b clean hit r)))))
