-- ===== src/Tests/Collection.antt =====
-- Runs of the gate on SQL, of the configuration, of the retries and of a collection cycle.
use klaayguard.Prelude.{
  ℕ, zero, suc, ◌≡◌, refl, ◌↔◌, ◌⊎◌, ◌++◌, true, false, [], ◌∷◌, none, some, In,
}
use klaayguard.Text.{Text, codes, Result, ok, err}
use klaayguard.Session.Race.{
  System, idle, Reach, here, next, Any, start, update, adopt_token, pick, call_adopt,
}
use klaayguard.Session.Laws.{Clearing, unnamed_without_token, adopt_clear_race}
use klaayguard.Config.{
  is_read_only_query, platform_matches, parse_config_items, CollectionItem, builtin,
}
use klaayguard.Config.Query.{
  IsOneStatement, is_read_only_query-IsOneStatement, is_read_only_query-verb,
}
use klaayguard.Config.Items.{Admits, entries, parse_config_items-Admits}
use klaayguard.Http.{Outcome, answered, network_error, send_with_retry}
use klaayguard.Http.Retry.{Climbs, send_with_retry-Climbs}
use klaayguard.Json.{Value, object, str}
use klaayguard.Cycle.{run_cycle, JsonApiPayload}
use klaayguard.Cycle.Auth.{Kept, run_cycle-Kept}
use klaayguard.Cycle.Payload.{Due, run_cycle-Due}
use klaayguard.Tests.Fixtures.{
  ring, hmac, no_faults, revoked, working, signed_in, empty_store, configuration,
}

is_read_only_query-IsOneStatement_example : IsOneStatement (codes " SELECT * FROM users; ")
unfolding is_read_only_query
is_read_only_query-IsOneStatement_example =
    is_read_only_query-IsOneStatement (codes " SELECT * FROM users; ") refl

is_read_only_query-verb_example :
    is_read_only_query (codes "with x as (" ++ (codes "DeLete" ++ codes " from t) select 1"))
    ≡ false
unfolding klaayguard.Config.is_separator klaayguard.Text.eq_text klaayguard.Text.lower
is_read_only_query-verb_example =
    is_read_only_query-verb (codes "with x as (") (codes "DeLete") (codes " from t) select 1") refl
      refl refl refl

parse_config_items-Admits_example :
    In
      (builtin (codes "lock") (codes "screenlock"))
      (parse_config_items configuration (codes "linux"))
    ↔ ((entry : Value) × In entry (entries configuration)
        × Admits (codes "linux") entry (builtin (codes "lock") (codes "screenlock")))
parse_config_items-Admits_example =
    parse_config_items-Admits configuration (codes "linux")
      (builtin (codes "lock") (codes "screenlock"))

adopt_clear_race_example :
    (s : System) × Reach Any s
    × ((j : ℕ) → s.pc j ≡ idle)
    × (s.mem.auth_token ≡ none)
    × (s.mem.user_label ≡ some (codes "Ada"))
adopt_clear_race_example = adopt_clear_race (codes "t0") (some (codes "Ada"))

-- two transient answers, then a success
abbrev flaky : ℕ → Outcome
flaky zero = network_error (codes "timeout")
flaky (suc zero) = answered (record { status = 503; json = none })
flaky (suc (suc n)) = answered (record { status = 200; json = none })

send_with_retry-Climbs_example :
    Climbs flaky 0 (60 ∷ 120 ∷ []) (send_with_retry true (codes "config") flaky)
send_with_retry-Climbs_example = send_with_retry-Climbs (codes "config") flaky

run_cycle-Kept_example :
    Kept ring hmac no_faults revoked signed_in
      (run_cycle ring hmac no_faults revoked signed_in empty_store)
run_cycle-Kept_example = run_cycle-Kept ring hmac no_faults revoked signed_in empty_store

abbrev stamped_row : Value
stamped_row = object (
    (codes "enabled", str (codes "yes"))
    ∷ (codes "collected_at", str (codes "2026-01-01T00:00:00Z"))
    ∷ [])

-- what the cycle posts
abbrev post_body : Text × JsonApiPayload
post_body = (
  codes "t0",
  record {
    data_items = record { kind = codes "lock"; attributes = stamped_row } ∷ [];
    device_uuid = codes "PF3ABC12";
  },
)

posts : (run_cycle ring hmac no_faults working signed_in empty_store).posted ≡ some post_body
unfolding run_cycle send_with_retry parse_config_items klaayguard.Json.get
    klaayguard.Config.config_item platform_matches klaayguard.Text.trim_end_by
    klaayguard.Text.trim_start_by klaayguard.Text.is_whitespace klaayguard.Text.split_by
    klaayguard.Config.name_matches klaayguard.Text.lower klaayguard.Cycle.build_payload_items
    klaayguard.Cycle.collect klaayguard.Cycle.insert klaayguard.Cycle.run_builtin_check
    klaayguard.Json.insert_field klaayguard.Device.get_device_identity klaayguard.Credentials.load
    klaayguard.Credentials.file_load klaayguard.Credentials.file_load_at
    klaayguard.Credentials.keyring_get klaayguard.Credentials.keyring_set
    klaayguard.Credentials.save_token klaayguard.Credentials.save_device_identity
    klaayguard.Credentials.file_delete klaayguard.Credentials.file_delete_at klaayguard.Cycle.lookup
    klaayguard.Cycle.name_unnamed_holder klaayguard.Device.byte_len
    klaayguard.Device.decide_device_identity klaayguard.Device.derive
    klaayguard.Device.extract_serial klaayguard.Device.is_known_placeholder
    klaayguard.Device.is_placeholder_serial klaayguard.Text.eq_text klaayguard.Http.send_loop
posts = refl

run_cycle-Due_example :
    (token : Text) × (signed_in.auth_token ≡ some token) × Due working token post_body
run_cycle-Due_example =
    run_cycle-Due ring hmac no_faults working signed_in empty_store post_body posts

-- one thread has signed in, another has begun to name the holder
abbrev signing_in : System
signing_in = record { mem = start.mem; pc = update start.pc 0 (adopt_token (codes "t0") none) }

unnamed_without_token_example : (signing_in.mem.user_label ≡ none) ⊎ Clearing signing_in.pc
unnamed_without_token_example =
    unnamed_without_token
      (next here (pick 0 (call_adopt (codes "t0") none)) (λ h j l z. absurd (cc z))) refl
