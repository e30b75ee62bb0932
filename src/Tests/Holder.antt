-- ===== src/Tests/Holder.antt =====
-- Runs of the label, of the adoption of a token, and of the native checks of Windows.
use klaayguard.Prelude.{ℕ, ◌≡◌, refl, Bool, [], ◌∷◌, some, ◌==◌}
use klaayguard.Text.{Text, codes, trim}
use klaayguard.Json.{Value, object, array, str, get_str}
use klaayguard.Label.{identity_label, adopt_unless_rejected}
use klaayguard.Label.Shape.{IsLabel, identity_label-IsLabel}
use klaayguard.Label.Adoption.{Adoption, adopt_unless_rejected-Adoption}
use klaayguard.Posture.{PasswordPolicy, timeq_forever}
use klaayguard.Tests.Fixtures.{answer, signed_in}

-- the right-to-left override
abbrev overrides : ℕ → Bool
overrides c = c == 0x202E

abbrev me : Value
me = object (
    (
      codes "data",
      object (
          (
            codes "attributes",
            object (
                (codes "first_name", str (codes " Ada "))
                ∷ (codes "last_name", str (codes "Byron"))
                ∷ []),
          )
          ∷ []),
    )
    ∷ [])

identity_label-IsLabel_example : IsLabel overrides (codes "Ada Byron")
unfolding identity_label klaayguard.Json.get klaayguard.Text.join klaayguard.Label.one_line
    klaayguard.Text.split_by klaayguard.Text.is_control klaayguard.Text.is_whitespace
    klaayguard.Label.paints_nothing klaayguard.Label.binds_without_painting
    klaayguard.Label.cap_label
identity_label-IsLabel_example = identity_label-IsLabel overrides me (codes "Ada Byron") refl

-- a name of a blank between two joiners, which shows nothing and is a label all the same
abbrev joiners : Value
joiners = object (
    (
      codes "data",
      object (
          (
            codes "attributes",
            object ((codes "first_name", str (0x200D ∷ 0x20 ∷ 0x200D ∷ [])) ∷ []),
          )
          ∷ []),
    )
    ∷ [])

joiners_name : identity_label overrides joiners ≡ some (0x200D ∷ 0x20 ∷ 0x200D ∷ [])
unfolding identity_label klaayguard.Json.get klaayguard.Text.join klaayguard.Label.one_line
    klaayguard.Text.split_by klaayguard.Text.is_control klaayguard.Text.is_whitespace
    klaayguard.Label.paints_nothing klaayguard.Label.binds_without_painting
    klaayguard.Label.cap_label
joiners_name = refl

adopt_unless_rejected-Adoption_example :
    Adoption overrides
      (answer 200 (some me) 0)
      (codes "t1")
      signed_in
      (adopt_unless_rejected overrides (answer 200 (some me) 0) (codes "t1") signed_in)
adopt_unless_rejected-Adoption_example =
    adopt_unless_rejected-Adoption overrides (answer 200 (some me) 0) (codes "t1") signed_in

abbrev policy : PasswordPolicy
policy = record {
  min_password_len = 8;
  max_password_age_secs = timeq_forever;
  min_password_age_secs = 90000;
  password_history_len = 24;
  lockout_threshold = 10;
  lockout_duration_secs = 600;
  lockout_window_secs = 630;
}
