-- ===== src/Label.antt =====
-- src-tauri/src/lib.rs: the name of the holder, from a `/me` reply, and the adoption of a token. The
-- Unicode category Cf is a parameter; the reply itself is what the request gives.
use klaayguard.Prelude.{
  ℕ, ◌-◌, Bool, true, false, not, ◌&&◌, ◌||◌, List, [], ◌∷◌, ◌++◌, Option, none, some, leb, ◌==◌,
  within, if◌then◌else◌, any, filter, is_empty, and_then, map_some, keep_if, length, take,
}
use klaayguard.Text.{Text, codes, is_whitespace, is_control, split_by, join}
use klaayguard.Json.{Value, get, get_str}
use klaayguard.Http.{Outcome, answered, network_error, is_success, is_auth_failure}
use klaayguard.Session.{AppState, adopt_session}
pub mod Shape
pub mod Adoption

abbrev pub label_max_chars : ℕ
label_max_chars = 48

unfoldable pub binds_without_painting : ℕ → Bool
binds_without_painting c = c == 0x200D || (within 0xFE00 0xFE0F c || within 0xE0100 0xE01EF c)

abbrev filler : ℕ → Bool
filler c = c == 0x115F || (c == 0x1160 || (c == 0x3164 || (c == 0xFFA0 || c == 0x2800)))

unfoldable pub cap_label : Text → Text
cap_label label =
    if leb (length label) label_max_chars
    then label
    else take (label_max_chars - 1) label ++ (0x2026 ∷ [])

-- what the API says of a token
pub data Identity : Type 0 where
  rejected : Identity
  accepted : Option Text → Identity
  unknown : Identity

abbrev pub adopt_as : Text → AppState → Identity → Bool × AppState
adopt_as tok s rejected = (false, s)
adopt_as tok s (accepted label) =
    (true, record (adopt_session tok label s) { token_acquired = true })
adopt_as tok s unknown = (true, record (adopt_session tok none s) { token_acquired = true })

module _ (is_format : ℕ → Bool) where
  unfoldable pub paints_nothing : ℕ → Bool
  paints_nothing c = if binds_without_painting c then false else is_format c || filler c

  -- a character that `one_line` splits at
  abbrev pub breaks : ℕ → Bool
  breaks c = is_control c || (is_whitespace c || paints_nothing c)

  unfoldable pub one_line : Text → Text
  one_line value = join (codes " ") (filter (λ part. not (is_empty part)) (split_by breaks value))

  abbrev pub paints : Text → Bool
  paints = any (λ c. not (binds_without_painting c))

  abbrev pub label_field : Value → Text → Option Text
  label_field attributes key = keep_if paints (map_some one_line (get_str key attributes))

  abbrev pub flatten : Option Text → List Text → List Text
  flatten none r = r
  flatten (some s) r = s ∷ r

  abbrev pub full_name : Value → Text
  full_name attributes = join (codes " ") (
      flatten (label_field attributes (codes "first_name"))
        (flatten (label_field attributes (codes "last_name")) []))

  abbrev pub label_of : Value → Option Text
  label_of attributes =
      if not (is_empty (full_name attributes))
      then some (cap_label (full_name attributes))
      else map_some cap_label (label_field attributes (codes "email"))

  unfoldable pub identity_label : Value → Option Text
  identity_label me =
      and_then (and_then (get (codes "data") me) (get (codes "attributes"))) label_of

  abbrev pub accepted_body : Option Value → Identity
  accepted_body none = unknown
  accepted_body (some body) = accepted (identity_label body)

  unfoldable pub fetch_identity : Outcome → Identity
  fetch_identity (network_error e) = unknown
  fetch_identity (answered r) =
      if is_auth_failure r.status
      then rejected
      else if not (is_success r.status)
      then unknown
      else accepted_body r.json

  unfoldable pub adopt_unless_rejected : Outcome → Text → AppState → Bool × AppState
  adopt_unless_rejected me tok s = adopt_as tok s (fetch_identity me)
