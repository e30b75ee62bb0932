-- ===== src/Posture.antt =====
-- src-tauri/src/lib.rs: two native checks of Windows, the BitLocker state of the system drive and the
-- local password policy. Reading the shell property and `NetUserModalsGet` are I/O: what they give is
-- the argument. The text of `detail` is left out.
use klaayguard.Prelude.{
  ℕ, zero, suc, ◌/◌, ◌-◌, ◌^◌, Bool, true, false, List, [], ◌∷◌, Option, none, some, leb, ◌==◌,
  if◌then◌else◌, and_then, map_some,
}
use klaayguard.Text.{Text, codes, trim, eq_text, parse_digits, parse_u64}
use klaayguard.Json.{Value, Number, pos_int, neg_int, float, object, array, str, num, opt_num}
use klaayguard.ScreenLock.{Tri, affirmed, denied, unknown, tri_text}
pub mod BitLocker
pub mod Policy

pub data BitLockerProtection : Type 0 where
  on : BitLockerProtection
  off : BitLockerProtection
  encrypting : BitLockerProtection
  decrypting : BitLockerProtection
  suspended : BitLockerProtection
  locked : BitLockerProtection
  pending_restart : BitLockerProtection
  waiting_for_activation : BitLockerProtection
  other : Number → BitLockerProtection

abbrev negated : ℕ → Option Number
negated zero = some (pos_int 0)
negated (suc n) = if leb (suc n) (2 ^ 63) then some (neg_int (suc n)) else none

abbrev not_too_large : ℕ → Option Number
not_too_large n = if leb n (2 ^ 63 - 1) then some (pos_int n) else none

-- `parse::<i64>`
unfoldable pub parse_i64 : Text → Option Number
parse_i64 [] = none
parse_i64 (c ∷ s) =
    if c == b'-'
    then and_then (parse_digits s) negated
    else and_then (parse_u64 (c ∷ s)) not_too_large

abbrev pub protection : ℕ → BitLockerProtection
protection n =
    if n == 1
    then on
    else if n == 2
    then off
    else if n == 3
    then encrypting
    else if n == 4
    then decrypting
    else if n == 5
    then suspended
    else if n == 6
    then locked
    else if n == 7
    then pending_restart
    else if n == 8
    then waiting_for_activation
    else other (pos_int n)

abbrev pub protection_of : Number → BitLockerProtection
protection_of (pos_int n) = protection n
protection_of (neg_int n) = other (neg_int n)
protection_of (float n) = other (float n)

unfoldable pub parse_bitlocker_protection : Option Text → Option BitLockerProtection
parse_bitlocker_protection raw = map_some protection_of (and_then raw (λ s. parse_i64 (trim s)))

pub record Volume : Type 0 where
  pub root_encrypted : Tri
  pub mechanism : Text

abbrev bitlocker : Tri → Volume
bitlocker encrypted = record { root_encrypted = encrypted; mechanism = codes "bitlocker" }

abbrev no_mechanism : Tri → Volume
no_mechanism encrypted = record { root_encrypted = encrypted; mechanism = codes "none" }

-- the `match` of `windows_disk_encryption_rows`
abbrev pub volume : Option BitLockerProtection → Volume
volume (some on) = bitlocker affirmed
volume (some locked) = bitlocker affirmed
volume (some off) = no_mechanism denied
volume (some suspended) = bitlocker denied
volume (some encrypting) = bitlocker denied
volume (some decrypting) = bitlocker denied
volume (some pending_restart) = no_mechanism denied
volume (some waiting_for_activation) = bitlocker denied
volume (some (other n)) = bitlocker unknown
volume none = no_mechanism unknown

abbrev mechanisms : Text → Value
mechanisms m = if eq_text m (codes "none") then array [] else array (str m ∷ [])

unfoldable pub windows_disk_encryption_rows : Text → Option BitLockerProtection → Value
windows_disk_encryption_rows drive status =
    let v = volume status in
    array (
      object (
        (codes "kind", str (codes "volume"))
        ∷ (codes "name", str drive)
        ∷ (codes "root_encrypted", str (tri_text v.root_encrypted))
        ∷ (codes "mechanism", str v.mechanism)
        ∷ (codes "source", str (codes "shell_property"))
        ∷ [])
      ∷ object (
          (codes "kind", str (codes "summary"))
          ∷ (codes "root_encrypted", str (tri_text v.root_encrypted))
          ∷ (codes "home_encrypted", str (tri_text v.root_encrypted))
          ∷ (codes "mechanisms", mechanisms v.mechanism)
          ∷ (codes "source", str (codes "aggregate"))
          ∷ [])
      ∷ [])

pub record PasswordPolicy : Type 0 where
  pub min_password_len : ℕ
  pub max_password_age_secs : ℕ
  pub min_password_age_secs : ℕ
  pub password_history_len : ℕ
  pub lockout_threshold : ℕ
  pub lockout_duration_secs : ℕ
  pub lockout_window_secs : ℕ

-- `u32::MAX`
abbrev pub timeq_forever : ℕ
timeq_forever = 2 ^ 32 - 1

unfoldable pub policy_units : ℕ → ℕ → Option ℕ
policy_units secs unit_secs = if secs == timeq_forever then none else some (secs / unit_secs)

abbrev pub policy_days : ℕ → Option ℕ
policy_days secs = policy_units secs 86400

abbrev pub policy_minutes : ℕ → Option ℕ
policy_minutes secs = policy_units secs 60

unfoldable pub password_policy_rows : Option PasswordPolicy → Text → Value
password_policy_rows (some p) scope = array (
    object (
      (codes "minimum_password_length", num (pos_int p.min_password_len))
      ∷ (codes "maximum_password_age_days", opt_num (policy_days p.max_password_age_secs))
      ∷ (codes "minimum_password_age_days", opt_num (policy_days p.min_password_age_secs))
      ∷ (codes "password_history_size", num (pos_int p.password_history_len))
      ∷ (codes "lockout_threshold", num (pos_int p.lockout_threshold))
      ∷ (codes "lockout_duration_minutes", opt_num (policy_minutes p.lockout_duration_secs))
      ∷ (codes "lockout_window_minutes", opt_num (policy_minutes p.lockout_window_secs))
      ∷ (codes "policy_of", str (codes "local_accounts"))
      ∷ (codes "scope", str scope)
      ∷ (codes "status", str (codes "ok"))
      ∷ (codes "source", str (codes "NetUserModalsGet"))
      ∷ [])
    ∷ [])
password_policy_rows none scope = array (
    object (
      (codes "status", str (codes "unknown"))
      ∷ (codes "scope", str scope)
      ∷ (codes "source", str (codes "NetUserModalsGet"))
      ∷ [])
    ∷ [])
