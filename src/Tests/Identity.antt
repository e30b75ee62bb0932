-- ===== src/Tests/Identity.antt =====
-- Runs of the credential store and of the device identity.
use klaayguard.Prelude.{◌≡◌, refl, some}
use klaayguard.Text.{Text, codes, Result, ok, err, eq_text, hex_lower}
use klaayguard.Json.{Value, as_array}
use klaayguard.Credentials.{
  load, save_token, delete_token, file_save_at, keyring, keyring_set, file_load, file_load_at,
  file_delete, file_delete_at, save_device_identity, keyring_get,
}
use klaayguard.Credentials.Files.{SavedOr, file_save_at-atomic}
use klaayguard.Credentials.Store.{save_token-load, save_token-stale, delete_token-Honest, Honest}
use klaayguard.Device.{
  extract_serial, get_device_identity, derive, decide_device_identity, is_placeholder_serial,
  is_known_placeholder, byte_len,
}
use klaayguard.Device.Stable.{get_device_identity-stable}
use klaayguard.Tests.Fixtures.{
  ring, ring-IsKeyring, no_faults, locked_file, empty_store, old_file, hmac, signed_out, laptop,
}

save_token-load_example :
    load ring no_faults (save_token ring no_faults (codes "new") old_file).1
    ≡ ok (some (codes "new"))
unfolding save_token keyring_set
save_token-load_example =
    save_token-load ring ring-IsKeyring no_faults no_faults (codes "new") old_file {c = keyring}
      refl (λ z. absurd (cc z)) refl refl refl refl

save_token-stale_example :
    ((save_token ring locked_file (codes "new") old_file).0 ≡ ok keyring)
    × (load ring no_faults (save_token ring locked_file (codes "new") old_file).1
        ≡ ok (some (codes "old")))
unfolding keyring_set
save_token-stale_example =
    save_token-stale ring ring-IsKeyring locked_file no_faults (codes "new") (codes "old") old_file
      refl refl (λ z. absurd (cc z)) refl refl refl

delete_token-Honest_example :
    Honest ring ring-IsKeyring no_faults (delete_token ring no_faults old_file)
delete_token-Honest_example =
    delete_token-Honest ring ring-IsKeyring no_faults no_faults old_file refl refl refl

file_save_at-atomic_example :
    SavedOr (codes "new") old_file.disk (file_save_at no_faults (codes "new") old_file.disk)
file_save_at-atomic_example = file_save_at-atomic no_faults (codes "new") old_file.disk

abbrev staging : Text
staging = codes "https://staging.klaay.com"

get_device_identity-stable_example :
    ((get_device_identity ring hmac no_faults signed_out empty_store laptop).result
      ≡ ok (codes "PF3ABC12"))
    × ((get_device_identity ring hmac no_faults signed_out
          (get_device_identity ring hmac no_faults signed_out empty_store laptop).store
          (record laptop { query = err (codes "osquery is gone") })).result
        ≡ ok (codes "PF3ABC12"))
unfolding get_device_identity load file_load file_load_at keyring_get derive decide_device_identity
    extract_serial klaayguard.Json.get klaayguard.Text.trim_end_by klaayguard.Text.trim_start_by
    klaayguard.Text.is_whitespace is_placeholder_serial byte_len klaayguard.Text.lower
    is_known_placeholder save_device_identity save_token keyring_set file_delete file_delete_at
    eq_text
get_device_identity-stable_example =
    get_device_identity-stable ring ring-IsKeyring hmac no_faults no_faults signed_out signed_out
      (codes "PF3ABC12") empty_store laptop
      (record laptop { query = err (codes "osquery is gone") }) refl refl refl (λ z. absurd (cc z))
      refl refl refl refl refl
