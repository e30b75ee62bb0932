-- ===== src/Config/Platform.antt =====
-- The list of platforms in a tag is a disjunction of its names.
use klaayguard.Prelude.{
  ℕ, ◌≡◌, refl, ◌++◌, ◌∷◌, [], Bool, true, ◌||◌, some, arith, ◌==◌, any, any-append, Bool-cases,
  inl, inr, is_empty, ◌∙◌, sym, ap, subst, all, false,
}
use klaayguard.Text.{Text, split, trim, to_ascii_lowercase, is_whitespace}
use klaayguard.Text.Laws.{trim-Trimmed}
use klaayguard.Text.Split.{split_by-append, split_by_word}
use klaayguard.Config.{name_matches, platform_matches}

abbrev pub entry_matches : Text → Text → Bool
entry_matches os name = name_matches os (to_ascii_lowercase (trim name))

is_empty-nil : (s : Text) → is_empty s ≡ true → s ≡ []
is_empty-nil [] h = refl
is_empty-nil (c ∷ s) h = cc

comma-visible : is_whitespace b',' ≡ false
unfolding is_whitespace
comma-visible = refl

not_comma : (c : ℕ) → is_whitespace c ≡ true → (c == b',') ≡ false
not_comma c h = ground (arith, comma-visible)

no_comma : (s : Text) → all is_whitespace s ≡ true → any (λ d. d == b',') s ≡ false
no_comma [] h = refl
no_comma (c ∷ s) h = ground (arith, not_comma c, no_comma s)

blank_tag : (tag : Text) → trim tag ≡ [] → any (λ d. d == b',') tag ≡ false
blank_tag tag e =
    let t = trim-Trimmed tag in
    subst (λ x. any (λ d. d == b',') x ≡ false) (sym t.splits)
      (rw (any-append, e)
        (ground (arith, no_comma t.lead t.lead_blank, no_comma t.tail t.tail_blank)))

name_matches-nil : (os : Text) → name_matches os [] ≡ true
unfolding name_matches
name_matches-nil os = refl

-- A tag with nothing in it but white space has one name, which is empty, so the early return on it
-- changes nothing.
platform_matches-any :
    (tag os : Text) → platform_matches (some tag) os ≡ any (entry_matches os) (split b',' tag)
unfolding platform_matches
platform_matches-any tag os = elim (Bool-cases (is_empty (trim tag))) [
  | inl e ↦
      let blank = is_empty-nil (trim tag) e in
      rw e (
        rw (split_by_word (λ d. d == b',') tag (blank_tag tag blank))
          (rw blank (rw (name_matches-nil os))))
  | inr e ↦ rw e
]

-- A tag of two lists of platforms, joined by a comma, matches a host exactly if one of them does.
pub platform_matches-comma :
    (a b os : Text)
    → platform_matches (some (a ++ (b',' ∷ b))) os
      ≡ (platform_matches (some a) os || platform_matches (some b) os)
platform_matches-comma a b os =
    platform_matches-any (a ++ (b',' ∷ b)) os
    ∙ ap (any (entry_matches os)) (split_by-append (λ d. d == b',') a b b',' refl)
    ∙ any-append (entry_matches os) (split b',' a) (split b',' b)
    ∙ ground (arith, platform_matches-any a os, platform_matches-any b os)
