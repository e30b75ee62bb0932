-- ===== src/LaunchAgent/Xml.antt =====
-- src-tauri/src/lib.rs: `xml_escape` against a reader of the five entities of XML.
use klaayguard.Prelude.{
  ℕ, ◌≡◌, refl, ◌∙◌, ap, Bool, false, ◌||◌, [], ◌∷◌, ◌++◌, any, flat_map, ◌==◌, if◌then◌else◌,
  arith, flat_map-append, any-append,
}
use klaayguard.Text.{Text, codes}
use klaayguard.LaunchAgent.{replace_char, xml_escape}

-- the entity of each character, in one pass
abbrev pub entity : ℕ → Text
entity c =
    if c == b'&'
    then codes "&amp;"
    else if c == b'<'
    then codes "&lt;"
    else if c == b'>'
    then codes "&gt;"
    else if c == b'"'
    then codes "&quot;"
    else if c == b'\''
    then codes "&apos;"
    else c ∷ []

-- A replacement of a concatenation is that of its parts, behind another such step too.
then-append :
    (g : Text → Text) (c : ℕ) (t : Text)
    → ((a b : Text) → g (a ++ b) ≡ g a ++ g b)
    → (a b : Text)
    → replace_char c t (g (a ++ b)) ≡ replace_char c t (g a) ++ replace_char c t (g b)
then-append g c t h a b =
    ap (replace_char c t) (h a b) ∙ flat_map-append (λ d. if d == c then t else d ∷ []) (g a) (g b)

xml_escape-append : (a b : Text) → xml_escape (a ++ b) ≡ xml_escape a ++ xml_escape b
unfolding xml_escape
xml_escape-append a b =
    then-append
      (λ s. replace_char b'"' (codes "&quot;") (
        replace_char b'>' (codes "&gt;")
          (replace_char b'<' (codes "&lt;") (replace_char b'&' (codes "&amp;") s))))
      b'\'' (codes "&apos;")
      (then-append
        (λ s.
          replace_char b'>' (codes "&gt;")
            (replace_char b'<' (codes "&lt;") (replace_char b'&' (codes "&amp;") s)))
        b'"' (codes "&quot;")
        (then-append (λ s. replace_char b'<' (codes "&lt;") (replace_char b'&' (codes "&amp;") s))
          b'>' (codes "&gt;")
          (then-append (λ s. replace_char b'&' (codes "&amp;") s) b'<' (codes "&lt;")
            (then-append (λ s. s) b'&' (codes "&amp;") (λ x y. refl)))))
      a b

xml_escape-char : (c : ℕ) → xml_escape (c ∷ []) ≡ entity c
unfolding xml_escape
xml_escape-char c = ground arith

-- The five replacements, one after the other, are one pass that writes each character's entity: no
-- replacement touches what another wrote.
pub xml_escape-flat_map : (s : Text) → xml_escape s ≡ flat_map entity s
xml_escape-flat_map [] = unfold xml_escape in refl
xml_escape-flat_map (c ∷ s) =
    xml_escape-append (c ∷ []) s
    ∙ (ap (λ v. v ++ xml_escape s) (xml_escape-char c)
        ∙ ap (λ v. entity c ++ v) (xml_escape-flat_map s))

-- what would end a text of XML, or an attribute
abbrev pub is_markup : ℕ → Bool
is_markup c = c == b'<' || (c == b'>' || (c == b'"' || c == b'\''))

any-entity : (c : ℕ) → any is_markup (entity c) ≡ false
any-entity c = ground arith

any-flat_map : (s : Text) → any is_markup (flat_map entity s) ≡ false
any-flat_map [] = refl
any-flat_map (c ∷ s) =
    rw (any-append is_markup (entity c) (flat_map entity s), any-entity c, any-flat_map s) refl

-- A path or an address that is written into the plist cannot end the text that it stands in.
pub xml_escape-inert : (s : Text) → any is_markup (xml_escape s) ≡ false
xml_escape-inert s = rw (xml_escape-flat_map s) (any-flat_map s)
