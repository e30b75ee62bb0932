-- ===== src/Text/Path.antt =====
-- `std::path::Path` on Unix, on paths as texts: the components, and the tests that the sources call.
use klaayguard.Prelude.{
  Bool, true, false, not, ◌&&◌, List, [], ◌∷◌, filter, is_empty, if◌then◌else◌,
}
use klaayguard.Text.{Text, codes, eq_text, split, starts_with}

-- The components of a path: a leading slash is one, and empty pieces and single dots are none, but for a
-- dot at the start of a relative path.
abbrev is_component : Text → Bool
is_component piece = not (is_empty piece) && not (eq_text piece (codes "."))

abbrev of_pieces : List Text → List Text
of_pieces [] = []
of_pieces (first ∷ rest) =
    let names = filter is_component rest in
    if is_empty first then codes "/" ∷ names else first ∷ names

unfoldable pub components : Text → List Text
unfolding eq_text klaayguard.Text.split_by
components [] = []
components path = of_pieces (split b'/' path)

abbrev pub is_prefix : List Text → List Text → Bool
is_prefix [] path = true
is_prefix (c ∷ cs) [] = false
is_prefix (c ∷ cs) (d ∷ ds) = eq_text c d && is_prefix cs ds

-- `Path::starts_with`
unfoldable pub path_starts_with : Text → Text → Bool
unfolding eq_text components
path_starts_with path base = is_prefix (components base) (components path)

-- `Path::is_absolute`
unfoldable pub is_absolute : Text → Bool
unfolding starts_with
is_absolute path = starts_with path (codes "/")
