-- ===== src/Credentials/Target.antt =====
-- src-tauri/src/keychain.rs and single_instance.rs: the names that a build derives from the API base
-- it talks to. SHA-256 is a parameter, a function from texts to bytes.
use klaayguard.Prelude.{
  ℕ, ◌≡◌, ◌≢◌, refl, ◌↔◌, ◌++◌, ◌∷◌, [], Bool, true, List, Option, none, some, arith, if◌then◌else◌,
  take, is_none, ◌==◌, ap,
}
use klaayguard.Text.{Text, codes, eq_text, trim_end_matches, hex_lower}
use klaayguard.Text.Laws.{trim_end_by-append}

abbrev pub production_api_base : Text
production_api_base = codes "https://api.klaay.com"

abbrev pub keychain_service : Text
keychain_service = codes "com.klaay.klaayguard"

abbrev sixth : Text → ℕ
sixth (a ∷ b ∷ c ∷ d ∷ e ∷ f ∷ s) = f
sixth _ = 0

module _ (sha256 : Text → List ℕ) where
  -- none for production
  unfoldable pub target_suffix : Text → Option Text
  target_suffix api_base_url =
      let normalised = trim_end_matches b'/' api_base_url in
      if eq_text normalised production_api_base
      then none
      else some (hex_lower (take 4 (sha256 normalised)))

  unfoldable pub is_production_target : Text → Bool
  is_production_target api_base_url = is_none (target_suffix api_base_url)

  abbrev service_of : Option Text → Text
  service_of none = keychain_service
  service_of (some suffix) = keychain_service ++ (b'.' ∷ suffix)

  unfoldable pub keychain_service_for : Text → Text
  keychain_service_for api_base_url = service_of (target_suffix api_base_url)

  abbrev dir_of : Option Text → Text
  dir_of none = codes "credentials"
  dir_of (some suffix) = codes "credentials-" ++ suffix

  -- the directory of `credential_file_in`, below the data directory
  unfoldable pub credential_dir : Text → Text
  credential_dir api_base_url = dir_of (target_suffix api_base_url)

  abbrev lock_of : Option Text → Text
  lock_of none = codes "agent.lock"
  lock_of (some suffix) = codes "agent-" ++ (suffix ++ codes ".lock")

  -- the file name of `agent_lock_path`
  unfoldable pub agent_lock_name : Text → Text
  agent_lock_name api_base_url = lock_of (target_suffix api_base_url)

  -- `agent-…` and `agent.lock` differ in their sixth character
  lock_of-ne : (suffix : Text) → lock_of (some suffix) ≢ codes "agent.lock"
  lock_of-ne suffix h = absurd (omega (arith, ap sixth h))

  names_of :
      (o : Option Text)
      → ((service_of o ≡ keychain_service) ↔ (is_none o ≡ true))
        × ((dir_of o ≡ codes "credentials") ↔ (is_none o ≡ true))
        × ((lock_of o ≡ codes "agent.lock") ↔ (is_none o ≡ true))
  names_of none = ((λ h. refl, λ h. refl), (λ h. refl, λ h. refl), (λ h. refl, λ h. refl))
  names_of (some suffix) =
      ((λ h. cc, λ h. cc), (λ h. cc, λ h. cc), (λ h. absurd (lock_of-ne suffix h), λ h. cc))

  -- The keychain entry, the directory of the fallback file and the lock file have the names of the
  -- installed production agent exactly if the build talks to production.
  pub production_names :
      (base : Text)
      → ((keychain_service_for base ≡ keychain_service) ↔ (is_production_target base ≡ true))
        × ((credential_dir base ≡ codes "credentials") ↔ (is_production_target base ≡ true))
        × ((agent_lock_name base ≡ codes "agent.lock") ↔ (is_production_target base ≡ true))
  unfolding keychain_service_for credential_dir agent_lock_name is_production_target
  production_names base = names_of (target_suffix base)

  -- A slash behind the API base changes none of the names.
  pub target_suffix-slash : (base : Text) → target_suffix (base ++ (b'/' ∷ [])) ≡ target_suffix base
  unfolding target_suffix
  target_suffix-slash base = rw (trim_end_by-append (λ d. d == b'/') base b'/' refl)
