-- ===== src/Text/Laws.antt =====
-- Laws of text equality, trimming and letter case.
use klaayguard.Prelude.{
  ℕ, ◌≡◌, refl, ◌↔◌, ◌++◌, ◌∷◌, [], Bool, true, ◌&&◌, arith, all, Bool-cases, inl, inr, ap, ◌∙◌,
}
use klaayguard.Text.{Text, eq_text, trim_start_by, trim_end_by, is_whitespace, trim}

pub eq_text_iff : (s t : Text) → (eq_text s t ≡ true) ↔ (s ≡ t)
unfolding eq_text
eq_text_iff [] [] = ground arith
eq_text_iff [] (b ∷ t) = ground arith
eq_text_iff (a ∷ s) [] = ground arith
eq_text_iff (a ∷ s) (b ∷ t) = ground (arith, eq_text_iff s t)

pub eq_text_refl : (s : Text) → eq_text s s ≡ true
eq_text_refl s = (eq_text_iff s s).1 refl

module _ (p : ℕ → Bool) where
  -- What `trim_start_matches` removes, and what it leaves.
  pub trim_start_by_split :
      (s : Text) → (cut : Text) × (s ≡ cut ++ trim_start_by p s) × (all p cut ≡ true)
  unfolding trim_start_by
  trim_start_by_split [] = ([], refl, refl)
  trim_start_by_split (c ∷ s) = elim (Bool-cases (p c)) [
    | inl e ↦
        let (cut, split, good) = trim_start_by_split s in
        (c ∷ cut, rw e (ap (◌∷◌ c) split), ground arith)
    | inr e ↦ ([], rw e, refl)
  ]

  trim_end_cons :
      (c : ℕ) (s kept cut : Text)
      → trim_end_by p s ≡ kept
      → s ≡ kept ++ cut
      → all p cut ≡ true
      → (cut' : Text) × (c ∷ s ≡ trim_end_by p (c ∷ s) ++ cut') × (all p cut' ≡ true)
  unfolding trim_end_by
  trim_end_cons c s [] cut k e good = elim (Bool-cases (p c)) [
    | inl y ↦ (c ∷ cut, rw (k, y) (ap (◌∷◌ c) e), ground arith)
    | inr n ↦ (cut, rw (k, n) (ap (◌∷◌ c) e), good)
  ]
  trim_end_cons c s (d ∷ kept) cut k e good = (cut, rw k (ap (◌∷◌ c) e), good)

  pub trim_end_by_split :
      (s : Text) → (cut : Text) × (s ≡ trim_end_by p s ++ cut) × (all p cut ≡ true)
  trim_end_by_split [] = ([], unfold trim_end_by in refl, refl)
  trim_end_by_split (c ∷ s) =
      let (cut, split, good) = trim_end_by_split s in
      trim_end_cons c s (trim_end_by p s) cut refl split good

pub all-append : (p : ℕ → Bool) (s t : Text) → all p (s ++ t) ≡ (all p s && all p t)
all-append p [] t = refl
all-append p (c ∷ s) t = ground (arith, all-append p s t)

pub all_weaken :
    (p q : ℕ → Bool) (s : Text)
    → ((c : ℕ) → p c ≡ true → q c ≡ true)
    → all p s ≡ true
    → all q s ≡ true
all_weaken p q [] h a = refl
all_weaken p q (c ∷ s) h a = ground (arith, h c, all_weaken p q s h)

-- What `trim` removes at both ends.
pub record Trimmed (s core : Text) : Type 0 where
  pub lead : Text
  pub tail : Text
  pub splits : s ≡ lead ++ (core ++ tail)
  pub lead_blank : all is_whitespace lead ≡ true
  pub tail_blank : all is_whitespace tail ≡ true

pub trim-Trimmed : (s : Text) → Trimmed s (trim s)
trim-Trimmed s =
    let (a, sa, ga) = trim_start_by_split is_whitespace s in
    let (b, sb, gb) = trim_end_by_split is_whitespace (trim_start_by is_whitespace s) in
    record {
      lead = a;
      tail = b;
      splits = sa ∙ ap (λ x. a ++ x) sb;
      lead_blank = ga;
      tail_blank = gb;
    }

-- One more trailing character that is trimmed changes nothing.
pub trim_end_by-append :
    (p : ℕ → Bool) (s : Text) (c : ℕ) → p c ≡ true → trim_end_by p (s ++ (c ∷ [])) ≡ trim_end_by p s
unfolding trim_end_by
trim_end_by-append p [] c h = rw h
trim_end_by-append p (d ∷ s) c h = rw (trim_end_by-append p s c h)
