-- ===== src/Device/Serial.antt =====
-- src-tauri/src/lib.rs: which serial is trusted, and how the sources of an identity are ranked.
use klaayguard.Prelude.{
  ℕ, ◌≡◌, ◌≤◌, ◌⊎◌, refl, inl, inr, Bool, true, false, not, ◌&&◌, ◌||◌, [], Option, none, some,
  arith, is_empty, map_some, ltb, keep_if, Bool-cases, sym, subst, and_then, head?, find_map, ◌∙◌,
  ap, unwrap_or,
}
use klaayguard.Text.{Text, codes, trim, to_ascii_lowercase}
use klaayguard.Json.{Value, as_array, get_str}
use klaayguard.Device.{
  byte_len, is_known_placeholder, is_repeated, is_placeholder_serial, trusted, extract_serial,
  serial_keys,
}

-- A serial that is adopted stands, trimmed, in the first row under one of the two keys; in lower case
-- it has at least four bytes, is none of the known placeholders, and is not one character repeated.
pub record IsSerial (row : Value) (s : Text) : Type 0 where
  pub raw : Text
  pub at_key :
      (get_str (codes "hardware_serial") row ≡ some raw)
      ⊎ (get_str (codes "serial_number") row ≡ some raw)
  pub trimmed : s ≡ trim raw
  pub long : 4 ≤ byte_len (to_ascii_lowercase (trim s))
  pub not_known : is_known_placeholder (to_ascii_lowercase (trim s)) ≡ false
  pub varied : is_repeated (to_ascii_lowercase (trim s)) ≡ false

gate :
    (empty known repeated : Bool) (n : ℕ)
    → (not empty && not (ltb n 4 || (known || repeated))) ≡ true
    → (4 ≤ n) × (known ≡ false) × (repeated ≡ false)
gate empty known repeated n h = ground arith

trusted_lem :
    (s : Text)
    → trusted s ≡ true
    → (4 ≤ byte_len (to_ascii_lowercase (trim s)))
      × (is_known_placeholder (to_ascii_lowercase (trim s)) ≡ false)
      × (is_repeated (to_ascii_lowercase (trim s)) ≡ false)
unfolding is_placeholder_serial
trusted_lem s h = gate (is_empty s) _ _ _ h

kept_raw :
    (o : Option Text) (s : Text)
    → keep_if trusted (map_some trim o) ≡ some s
    → (raw : Text) × (o ≡ some raw) × (s ≡ trim raw) × (trusted s ≡ true)
kept_raw none s h = absurd (cc h)
kept_raw (some raw) s h = elim (Bool-cases (trusted (trim raw))) [
  | inl e ↦
      let same : trim raw ≡ s = ap (λ o. unwrap_or o []) (rw e at h) in
      (raw, refl, sym same, subst (λ x. trusted x ≡ true) same e)
  | inr e ↦ absurd (cc (rw e at h))
]

IsSerial-at :
    (row : Value) (s key : Text)
    → (get_str key row ≡ get_str (codes "hardware_serial") row)
      ⊎ (get_str key row ≡ get_str (codes "serial_number") row)
    → keep_if trusted (map_some trim (get_str key row)) ≡ some s
    → IsSerial row s
IsSerial-at row s key which h =
    let (raw, found, same, t) = kept_raw (get_str key row) s h in
    let (long, fresh, varied) = trusted_lem s t in
    record {
      raw = raw;
      at_key = elim which [ inl e ↦ inl (sym e ∙ found) | inr e ↦ inr (sym e ∙ found) ];
      trimmed = same;
      long = long;
      not_known = fresh;
      varied = varied;
    }

either_key :
    (row : Value) (s : Text) (a b : Option Text)
    → keep_if trusted (map_some trim (get_str (codes "hardware_serial") row)) ≡ a
    → keep_if trusted (map_some trim (get_str (codes "serial_number") row)) ≡ b
    → elim a [ some x ↦ some x | none ↦ elim b [ some x ↦ some x | none ↦ none ] ] ≡ some s
    → IsSerial row s
either_key row s (some x) b p q h = IsSerial-at row s _ (inl refl) (p ∙ h)
either_key row s none (some x) p q h = IsSerial-at row s _ (inr refl) (q ∙ h)
either_key row s none none p q h = absurd (cc h)

in_row :
    (o : Option Value) (s : Text)
    → and_then o
        (λ row. find_map (λ k. keep_if trusted (map_some trim (get_str k row))) serial_keys)
      ≡ some s
    → (row : Value) × (o ≡ some row) × IsSerial row s
in_row none s h = absurd (cc h)
in_row (some row) s h = (row, refl, either_key row s _ _ refl refl h)

-- The serial that is taken from the `system_info` rows is trusted, and stands in the first row.
pub extract_serial-IsSerial :
    (rows : Value) (s : Text)
    → extract_serial rows ≡ some s
    → (row : Value) × (and_then (as_array rows) head? ≡ some row) × IsSerial row s
unfolding extract_serial
extract_serial-IsSerial rows s h = in_row (and_then (as_array rows) head?) s h
