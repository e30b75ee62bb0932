-- ===== src/Device.antt =====
-- src-tauri/src/lib.rs: the device identity. The hardware serial, the machine id, the rank of the
-- sources, and `get_device_identity_internal`, which decides once and stores what it decided. HMAC,
-- the random source and the keyring are parameters; logging is left out.
use klaayguard.Prelude.{
  ℕ, ◌+◌, Bool, true, false, not, ◌&&◌, ◌||◌, List, [], ◌∷◌, Option, none, some, ltb, leb, ◌==◌,
  if◌then◌else◌, all, is_empty, head?, and_then, map_some, keep_if, find_map, length,
}
use klaayguard.Text.{
  Text, codes, trim, to_ascii_lowercase, one_of, is_ascii_hexdigit, hex_lower, Result, ok, err,
}
use klaayguard.Json.{Value, as_array, get_str}
use klaayguard.Session.{AppState}
use klaayguard.Credentials.{Keyring, Faults, State, load, save_device_identity}
pub mod Serial
pub mod Stable

-- `str::len`: the number of UTF-8 bytes
abbrev utf8_len : ℕ → ℕ
utf8_len c = if ltb c 0x80 then 1 else if ltb c 0x800 then 2 else if ltb c 0x10000 then 3 else 4

unfoldable pub byte_len : Text → ℕ
byte_len [] = 0
byte_len (c ∷ s) = utf8_len c + byte_len s

abbrev pub placeholders : List Text
placeholders =
    codes "-1"
    ∷ codes "0"
    ∷ codes "none"
    ∷ codes "n/a"
    ∷ codes "null"
    ∷ codes "(null string)"
    ∷ codes "invalid"
    ∷ codes "default"
    ∷ codes "default string"
    ∷ codes "system serial number"
    ∷ codes "to be filled by o.e.m."
    ∷ codes "not applicable"
    ∷ codes "not specified"
    ∷ codes "not available"
    ∷ codes "unknown"
    ∷ codes "serial number"
    ∷ codes "serialnumber"
    ∷ codes "oem"
    ∷ codes "empty"
    ∷ codes "123456789"
    ∷ codes "0123456789"
    ∷ codes "1234567890"
    ∷ []

-- `PLACEHOLDERS.contains`
unfoldable pub is_known_placeholder : Text → Bool
is_known_placeholder s = one_of s placeholders

abbrev pub is_repeated : Text → Bool
is_repeated [] = false
is_repeated (f ∷ s) = all (λ c. c == f) s

unfoldable pub is_placeholder_serial : Text → Bool
is_placeholder_serial raw =
    let s = to_ascii_lowercase (trim raw) in
    ltb (byte_len s) 4 || (is_known_placeholder s || is_repeated s)

abbrev pub serial_keys : List Text
serial_keys = codes "hardware_serial" ∷ codes "serial_number" ∷ []

abbrev pub trusted : Text → Bool
trusted s = not (is_empty s) && not (is_placeholder_serial s)

unfoldable pub extract_serial : Value → Option Text
extract_serial rows =
    and_then (and_then (as_array rows) head?)
      (λ row. find_map (λ k. keep_if trusted (map_some trim (get_str k row))) serial_keys)

abbrev pub is_machine_id : Text → Bool
is_machine_id t = byte_len t == 32 && all is_ascii_hexdigit t

unfoldable pub normalize_machine_id : Text → Option Text
normalize_machine_id raw =
    let t = trim raw in if is_machine_id t then some (to_ascii_lowercase t) else none

pub data IdentityDecision : Type 0 where
  use_stored : Text → IdentityDecision
  adopt : Text → IdentityDecision
  generate : IdentityDecision

abbrev pub nonempty : Option Text → Option Text
nonempty = keep_if (λ s. not (is_empty s))

module _ (hmac : Text → List ℕ) where
  abbrev hash_machine_id : Text → Text
  hash_machine_id machine_id = hex_lower (hmac machine_id)

  unfoldable pub decide_device_identity : Option Text → Option Text → Option Text → IdentityDecision
  decide_device_identity stored hardware_serial machine_id = elim (nonempty stored) [
    | some s ↦ use_stored s
    | none ↦ elim (nonempty hardware_serial) [
      | some s ↦ adopt s
      | none ↦ elim (and_then machine_id normalize_machine_id) [
        | some id ↦ adopt (hash_machine_id id)
        | none ↦ generate
      ]
    ]
  ]

-- What a cycle finds on the host: the `system_info` rows that it has collected, or else what the
-- query for them gives; the machine id; 32 random hex characters, or the error of the OS.
pub record Host : Type 0 where
  pub system_info : Option Value
  pub query : Result Value
  pub machine_id : Option Text
  pub random : Result Text

abbrev queried : Result Value → Option Text
queried (ok rows) = extract_serial rows
queried (err e) = none

abbrev pub hardware_serial : Host → Option Text
hardware_serial h = elim h.system_info [ some rows ↦ extract_serial rows | none ↦ queried h.query ]

abbrev identity_of : Result Text → IdentityDecision → Result Text
identity_of random (use_stored v) = ok v
identity_of random (adopt v) = ok v
identity_of random generate = random

module _ (k : Keyring) where
  pub record Resolved : Type 0 where
    pub result : Result Text
    pub app : AppState
    pub store : State k

  abbrev pub cache : AppState → Text → AppState
  cache app id = record app { device_identity = some id }

  -- only what is stored is cached, so that a failed save is tried again
  abbrev pub kept : AppState → Text → Result (Unit {0}) × State k → Resolved
  kept app id (ok _, st) = record { result = ok id; app = cache app id; store = st }
  kept app id (err e, st) = record { result = ok id; app = app; store = st }

  abbrev pub settle : Faults → AppState → State k → Result Text → Resolved
  settle f app st (ok id) = kept app id (save_device_identity k f id st)
  settle f app st (err e) = record { result = err e; app = app; store = st }

module _ (k : Keyring) (hmac : Text → List ℕ) (f : Faults) where
  unfoldable pub derive : AppState → State k → Host → Resolved k
  derive app st h =
      settle k f app st
        (identity_of h.random (decide_device_identity hmac none (hardware_serial h) h.machine_id))

  abbrev pub from_store : AppState → State k → Host → Result (Option Text) → Resolved k
  from_store app st h (ok (some (c ∷ s))) = record {
    result = ok (c ∷ s);
    app = cache k app (c ∷ s);
    store = st;
  }
  from_store app st h _ = derive app st h

  abbrev pub resolve : AppState → State k → Host → Option Text → Resolved k
  resolve app st h (some cached) = record { result = ok cached; app = app; store = st }
  resolve app st h none = from_store app st h (load k f st)

  unfoldable pub get_device_identity : AppState → State k → Host → Resolved k
  get_device_identity app st h = resolve app st h app.device_identity
