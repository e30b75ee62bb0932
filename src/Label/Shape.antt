-- ===== src/Label/Shape.antt =====
-- src-tauri/src/lib.rs: the shape of the label that the tray shows.
use klaayguard.Prelude.{
  ℕ, zero, suc, inl, inr, any-append, ap, subst, ◌∙◌, ◌≤◌, ◌≡◌, refl, Bool, true, false, not, ◌||◌,
  List, [], ◌∷◌, Option, none, some, arith, leb, ◌==◌, all, filter, is_empty, and_then, map_some,
  keep_if, length, take, Bool-cases, length-append, All, unwrap_or,
}
use klaayguard.Text.{Text, codes, split_by, join, push_first}
use klaayguard.Text.Laws.{all-append, all_weaken}
use klaayguard.Json.{Value, get}
use klaayguard.Label.{
  cap_label, one_line, breaks, identity_label, label_of, label_field, full_name, paints,
  binds_without_painting, flatten,
}

length-take_le : (n : ℕ) (s : Text) → length (take n s) ≤ n
length-take_le zero s = omega arith
length-take_le (suc n) [] = omega arith
length-take_le (suc n) (c ∷ s) = let ih = length-take_le n s in omega arith

cap_label-length : (s : Text) → length (cap_label s) ≤ 48
unfolding cap_label
cap_label-length s = elim (Bool-cases (leb (length s) 48)) [
  | inl e ↦ rw e (ground arith)
  | inr e ↦
      rw e
        (rw (length-append (take 47 s) (0x2026 ∷ [])) (let h = length-take_le 47 s in omega arith))
]

all-take : (p : ℕ → Bool) (n : ℕ) (s : Text) → all p s ≡ true → all p (take n s) ≡ true
all-take p zero s h = refl
all-take p (suc n) [] h = refl
all-take p (suc n) (c ∷ s) h = ground (arith, all-take p n s)

All-filter : (P : Text → Type 0) (q : Text → Bool) (ws : List Text) → All P ws → All P (filter q ws)
All-filter P q [] all_ = tt
All-filter P q (w ∷ ws) (here, rest) = elim (Bool-cases (q w)) [
  | inl e ↦ rw e (here, All-filter P q ws rest)
  | inr e ↦ rw e (All-filter P q ws rest)
]

-- `join` keeps a test that the characters of the words and the blank pass.
all-join :
    (p : ℕ → Bool) (ws : List Text)
    → p b' ' ≡ true
    → All (λ w. all p w ≡ true) ws
    → all p (join (codes " ") ws) ≡ true
unfolding join
all-join p [] b h = refl
all-join p (w ∷ []) b (h, r) = h
all-join p (w ∷ v ∷ ws) b (h, r) =
    all-append p w (b' ' ∷ join (codes " ") (v ∷ ws)) ∙ ground (arith, all-join p (v ∷ ws) b r)

module _ (is_format : ℕ → Bool) where
  -- a character that a line may hold: a blank, or one that is no control, space or invisible character
  abbrev pub plain : ℕ → Bool
  plain c = c == b' ' || not (breaks is_format c)

  -- the dots of a label that was cut
  abbrev pub shown : ℕ → Bool
  shown c = plain c || c == 0x2026

  abbrev Plain : Text → Type 0
  Plain s = all plain s ≡ true

  push_first-Plain :
      (c : ℕ) (ws : List Text) → plain c ≡ true → All Plain ws → All Plain (push_first c ws)
  push_first-Plain c [] e h = (ground arith, tt)
  push_first-Plain c (w ∷ ws) e (h, r) = (ground arith, r)

  split_by-Plain : (s : Text) → All Plain (split_by (breaks is_format) s)
  unfolding split_by
  split_by-Plain [] = (refl, tt)
  split_by-Plain (c ∷ s) =
      let ih = split_by-Plain s in
      elim (Bool-cases (breaks is_format c)) [
        | inl e ↦ rw e (refl, ih)
        | inr e ↦ rw e (push_first-Plain c _ (ground arith) ih)
      ]

  one_line-Plain : (s : Text) → Plain (one_line is_format s)
  unfolding one_line
  one_line-Plain s = all-join plain _ refl (All-filter Plain _ _ (split_by-Plain s))

  -- a text that a field gives
  abbrev Field : Text → Type 0
  Field s = Plain s × (paints is_format s ≡ true)

  kept-Field :
      (o : Option Text) (s : Text)
      → keep_if (paints is_format) (map_some (one_line is_format) o) ≡ some s
      → Field s
  kept-Field none s h = absurd (cc h)
  kept-Field (some raw) s h = elim (Bool-cases (paints is_format (one_line is_format raw))) [
    | inl e ↦
        let same : one_line is_format raw ≡ s = ap (λ o. unwrap_or o []) (rw e at h) in
        subst Field same (one_line-Plain raw, e)
    | inr e ↦ absurd (cc (rw e at h))
  ]

  full-Field :
      (a b : Option Text)
      → ((s : Text) → a ≡ some s → Field s)
      → ((s : Text) → b ≡ some s → Field s)
      → is_empty (join (codes " ") (flatten is_format a (flatten is_format b []))) ≡ false
      → Field (join (codes " ") (flatten is_format a (flatten is_format b [])))
  unfolding join
  full-Field none none fa fb h = absurd (cc h)
  full-Field none (some t) fa fb h = fb t refl
  full-Field (some s) none fa fb h = fa s refl
  full-Field (some s) (some t) fa fb h =
      let (plain_s, paints_s) = fa s refl in
      let (plain_t, paints_t) = fb t refl in
      (
        all-append plain s (b' ' ∷ t) ∙ ground arith,
        any-append (λ c. not (binds_without_painting c)) s (b' ' ∷ t) ∙ ground arith,
      )

  -- what the tray shows: short, of visible characters and blanks, and not of joiners and selectors alone
  pub record IsLabel (s : Text) : Type 0 where
    pub short : length s ≤ 48
    pub one_line_only : all shown s ≡ true
    pub not_joiners_only : paints is_format s ≡ true

  cap_label-shown : (s : Text) → Plain s → all shown (cap_label s) ≡ true
  unfolding cap_label
  cap_label-shown s h =
      let wide = all_weaken plain shown s (λ c e. ground arith) h in
      elim (Bool-cases (leb (length s) 48)) [
        | inl e ↦ rw e wide
        | inr e ↦
            rw e (
              all-append shown (take 47 s) (0x2026 ∷ []) ∙ ground (arith, all-take shown 47 s wide))
      ]

  cap_label-paints : (s : Text) → paints is_format s ≡ true → paints is_format (cap_label s) ≡ true
  unfolding cap_label binds_without_painting
  cap_label-paints s h = elim (Bool-cases (leb (length s) 48)) [
    | inl e ↦ rw e h
    | inr e ↦
        rw e (
          any-append (λ c. not (binds_without_painting c)) (take 47 s) (0x2026 ∷ []) ∙ ground arith)
  ]

  cap_label-IsLabel : (s : Text) → Field s → IsLabel (cap_label s)
  cap_label-IsLabel s (h, p) = record {
    short = cap_label-length s;
    one_line_only = cap_label-shown s h;
    not_joiners_only = cap_label-paints s p;
  }

  capped-IsLabel :
      (o : Option Text) (s : Text)
      → ((t : Text) → o ≡ some t → Field t)
      → map_some cap_label o ≡ some s
      → IsLabel s
  capped-IsLabel none s f h = absurd (cc h)
  capped-IsLabel (some t) s f h =
      let same : cap_label t ≡ s = ap (λ o. unwrap_or o []) h in
      subst IsLabel same (cap_label-IsLabel t (f t refl))

  label_of-IsLabel : (a : Value) (s : Text) → label_of is_format a ≡ some s → IsLabel s
  label_of-IsLabel a s h = elim (Bool-cases (is_empty (full_name is_format a))) [
    | inl e ↦
        capped-IsLabel (label_field is_format a (codes "email")) s (λ t q. kept-Field _ t q)
          (rw e at h)
    | inr e ↦
        capped-IsLabel (some (full_name is_format a)) s
          (λ t q.
            let same : full_name is_format a ≡ t = ap (λ o. unwrap_or o []) q in
            subst Field same (full-Field _ _ (λ u r. kept-Field _ u r) (λ u r. kept-Field _ u r) e))
          (rw e at h)
  ]

  -- A label has at most 48 characters; each is a blank, the mark of a cut, or one that is no control, white space
  -- or character of `paints_nothing`; and not all are joiners or variation selectors. It may paint nothing all the
  -- same: a blank between two joiners meets the last condition.
  pub identity_label-IsLabel :
      (me : Value) (s : Text) → identity_label is_format me ≡ some s → IsLabel s
  unfolding identity_label
  identity_label-IsLabel me s h =
      reply (and_then (get (codes "data") me) (get (codes "attributes"))) h
    where
      reply : (o : Option Value) → and_then o (label_of is_format) ≡ some s → IsLabel s
      reply none q = absurd (cc q)
      reply (some a) q = label_of-IsLabel a s q
