-- ===== src/Spawn/Clean.antt =====
-- src-tauri/src/lib.rs: what a child finds of the AppImage in its environment.
use klaayguard.Prelude.{
  ℕ, ◌≡◌, refl, ◌∙◌, ap, inl, inr, false, List, [], ◌∷◌, ◌++◌, Option, none, some, In, In-filter,
  filter, any, arith, Bool-cases, ◌==◌,
}
use klaayguard.Text.{Text, codes, join, split, trim_end_matches, push_first, split_by}
use klaayguard.Text.Split.{split_by-append, split_by_word}
use klaayguard.Spawn.{keeps, kept_or_none, strip_appimage_paths}

-- no colon in any of the texts
abbrev pub Plain : List Text → Type 0
Plain ps = (p : Text) → In p ps → any (λ c. c == b':') p ≡ false

pub split-join :
    (p : Text) (ps : List Text) → Plain (p ∷ ps) → split b':' (join (codes ":") (p ∷ ps)) ≡ p ∷ ps
unfolding join
split-join p [] h = split_by_word (λ d. d == b':') p (h p (inl refl))
split-join p (q ∷ ps) h =
    split_by-append (λ d. d == b':') p (join (codes ":") (q ∷ ps)) b':' refl
    ∙ (ap (λ ws. ws ++ split b':' (join (codes ":") (q ∷ ps)))
          (split_by_word (λ d. d == b':') p (h p (inl refl)))
        ∙ ap (λ ws. p ∷ ws) (split-join q ps (λ r i. h r (inr i))))

push-Plain : (c : ℕ) (ws : List Text) → (c == b':') ≡ false → Plain ws → Plain (push_first c ws)
push-Plain c [] e h p (inl q) = rw q (ground arith)
push-Plain c [] e h p (inr i) = absurd i
push-Plain c (w ∷ ws) e h p (inl q) = rw q (ground (arith, h w (inl refl)))
push-Plain c (w ∷ ws) e h p (inr i) = h p (inr i)

empty-Plain : (ws : List Text) → Plain ws → Plain ([] ∷ ws)
empty-Plain ws h p (inl q) = rw q refl
empty-Plain ws h p (inr i) = h p i

pub split-Plain : (s : Text) → Plain (split b':' s)
unfolding split_by
split-Plain [] = empty-Plain [] (λ p i. absurd i)
split-Plain (c ∷ s) = elim (Bool-cases (c == b':')) [
  | inl e ↦ rw e (empty-Plain (split b':' s) (split-Plain s))
  | inr e ↦ rw e (push-Plain c (split b':' s) e (split-Plain s))
]

-- the entries that a child finds, none if the variable is not set for it
abbrev pub entries : Option Text → List Text
entries none = []
entries (some value) = split b':' value

entries-kept : (ps : List Text) → Plain ps → entries (kept_or_none ps) ≡ ps
entries-kept [] h = refl
entries-kept (p ∷ ps) h = split-join p ps h

-- A child finds exactly the entries of the variable that are not empty and are neither the mount of the AppImage
-- nor in it, in their order.
pub strip_appimage_paths-entries :
    (value appdir : Text)
    → entries (strip_appimage_paths value appdir)
      ≡ filter (keeps (trim_end_matches b'/' appdir)) (split b':' value)
unfolding strip_appimage_paths
strip_appimage_paths-entries value appdir =
    entries-kept (filter (keeps (trim_end_matches b'/' appdir)) (split b':' value)) (λ p i.
      split-Plain value p
        (In-filter (keeps (trim_end_matches b'/' appdir)) p (split b':' value) i).0)
