-- ===== src/Posture/BitLocker.antt =====
-- src-tauri/src/lib.rs: which values of the shell property count as an encrypted drive.
use klaayguard.Prelude.{
  ℕ, ◌≡◌, ◌≢◌, ◌≤◌, refl, ◌⊎◌, [], Option, none, some, arith, and_then, map_some, if◌then◌else◌,
  find_map, unwrap_or,
}
use klaayguard.Text.{Text, codes, trim, is_text, eq_text}
use klaayguard.Json.{Number, pos_int, neg_int, float, Value, as_array, get, get_str}
use klaayguard.ScreenLock.{Tri, affirmed, denied, unknown, tri_text}
use klaayguard.Posture.{
  parse_i64, protection, protection_of, parse_bitlocker_protection, volume,
  windows_disk_encryption_rows,
}

-- What the value of the property, if it was read as a number, means for the row.
abbrev pub Meaning : Option Number → Tri → Type 0
Meaning (some (pos_int n)) affirmed = (n ≡ 1) ⊎ (n ≡ 6)
Meaning (some (pos_int n)) denied = (1 ≤ n) × (n ≤ 8) × (n ≢ 1) × (n ≢ 6)
Meaning (some (pos_int n)) unknown = (n ≡ 0) ⊎ (9 ≤ n)
Meaning _ affirmed = ⊥
Meaning _ denied = ⊥
Meaning _ unknown = Unit

protection-Meaning :
    (n : ℕ) → Meaning (some (pos_int n)) (volume (some (protection n))).root_encrypted
protection-Meaning n = ground arith

value-Meaning : (o : Option Number) → Meaning o (volume (map_some protection_of o)).root_encrypted
value-Meaning none = tt
value-Meaning (some (pos_int n)) = protection-Meaning n
value-Meaning (some (neg_int n)) = tt
value-Meaning (some (float n)) = tt

-- the summary row of the two
abbrev pub summary : Value → Option Value
summary rows =
    find_map
      (λ row. if is_text (get_str (codes "kind") row) (codes "summary") then some row else none)
      (unwrap_or (as_array rows) [])

-- The summary row says of the root and of the home alike: "yes" exactly for the values 1 and 6 of the
-- property, "no" for 2, 3, 4, 5, 7 and 8, and "unknown" for any other value, for a text that is no
-- 64-bit number, and where there was nothing to read.
pub windows_disk_encryption_rows-Meaning :
    (drive : Text) (raw : Option Text)
    → (t : Tri) × (and_then
          (summary (windows_disk_encryption_rows drive (parse_bitlocker_protection raw)))
          (get_str (codes "root_encrypted"))
        ≡ some (tri_text t))
      × (and_then
            (summary (windows_disk_encryption_rows drive (parse_bitlocker_protection raw)))
            (get_str (codes "home_encrypted"))
          ≡ some (tri_text t))
      × Meaning (and_then raw (λ s. parse_i64 (trim s))) t
unfolding windows_disk_encryption_rows parse_bitlocker_protection get eq_text
windows_disk_encryption_rows-Meaning drive raw =
    (_, refl, refl, value-Meaning (and_then raw (λ s. parse_i64 (trim s))))
