-- ===== src/SignIn/Code.antt =====
-- src-tauri/src/sign_in.rs: `code_from_request_line` on the lines that a browser sends.
use klaayguard.Prelude.{
  ℕ, ◌≡◌, refl, ◌∙◌, ap, Bool, false, not, [], ◌∷◌, ◌++◌, some, any, arith, is_empty, filter, ◌||◌,
  ◌==◌,
}
use klaayguard.Text.{Text, codes, is_whitespace, split_by, split, split_once, eq_text}
use klaayguard.Text.Split.{split_by-append, split_by_word}
use klaayguard.SignIn.{code_from_request_line, code_of_words, code_of_pairs}

-- what ends a code in a request line
abbrev pub ends_code : ℕ → Bool
ends_code c = is_whitespace c || c == b'&'

apart :
    (c : Text)
    → any ends_code c ≡ false
    → (any is_whitespace c ≡ false) × (any (λ d. d == b'&') c ≡ false)
apart [] h = (refl, refl)
apart (c ∷ s) h = let (a, b) = apart s (ground arith) in (ground arith, ground arith)

module _ (code rest : Text) (h : any ends_code code ≡ false) where
  abbrev target : Text
  target = codes "/?code=" ++ code

  target_is_word : any is_whitespace target ≡ false
  unfolding is_whitespace
  target_is_word = (apart code h).0

  words :
      split_by is_whitespace (codes "GET" ++ (b' ' ∷ (target ++ (b' ' ∷ rest))))
      ≡ codes "GET" ∷ target ∷ split_by is_whitespace rest
  unfolding is_whitespace
  words =
      split_by-append is_whitespace (codes "GET") (target ++ (b' ' ∷ rest)) b' ' refl
      ∙ ap (λ ws. split_by is_whitespace (codes "GET") ++ ws)
          (split_by-append is_whitespace target rest b' ' refl
            ∙ ap (λ ws. ws ++ split_by is_whitespace rest)
                (split_by_word is_whitespace target target_is_word))
      ∙ ap (λ ws. ws ++ (target ∷ split_by is_whitespace rest))
          (split_by_word is_whitespace (codes "GET") refl)

  pairs : split b'&' (codes "code=" ++ code) ≡ (codes "code=" ++ code) ∷ []
  pairs = split_by_word (λ d. d == b'&') (codes "code=" ++ code) (apart code h).1

  found : is_empty code ≡ false → code_of_pairs ((codes "code=" ++ code) ∷ []) ≡ some code
  unfolding split_once eq_text
  found n = rw n refl

-- The code of the link that the browser is sent to is the one that is read, if it holds neither white space nor
-- an ampersand and is not empty.
pub code_from_request_line-code :
    (code rest : Text)
    → any ends_code code ≡ false
    → is_empty code ≡ false
    → code_from_request_line (codes "GET /?code=" ++ (code ++ (b' ' ∷ rest))) ≡ some code
unfolding code_from_request_line split_once
code_from_request_line-code code rest h n =
    ap (λ ws. code_of_words (filter (λ w. not (is_empty w)) ws)) (words code rest h)
    ∙ (ap code_of_pairs (pairs code rest h) ∙ found code rest h n)
