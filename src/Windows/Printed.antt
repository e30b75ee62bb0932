-- ===== src/Windows/Printed.antt =====
-- src-tauri/src/lib.rs: what the disk encryption rows of Windows rest on.
use klaayguard.Prelude.{
  ℕ, ◌≡◌, refl, inl, inr, true, false, Option, none, some, arith, and_then, map_some, Bool-cases,
  unwrap_or, ◌==◌,
}
use klaayguard.Text.{Text, codes, trim, Result, ok, err}
use klaayguard.Text.Utf8.{from_utf8_lossy}
use klaayguard.Json.{Value, get_str}
use klaayguard.ScreenLock.{Tri, affirmed, denied, unknown, tri_text}
use klaayguard.Posture.{parse_i64, parse_bitlocker_protection}
use klaayguard.Posture.BitLocker.{Meaning, summary, windows_disk_encryption_rows-Meaning}
use klaayguard.Windows.Reader.{
  Machine, Output, bitlocker_script, property, of_output, read_bitlocker_protection, bitlocker_rows,
  collect_disk_encryption_windows,
}

module _ (m : Machine) where
  -- What PowerShell printed, where it ran to its end.
  abbrev pub Printed : Text → Text → Type 0
  Printed drive text =
      (out : Output) × (m.powershell (bitlocker_script m drive) ≡ ok out)
      × (out.code ≡ some 0)
      × (text ≡ trim (from_utf8_lossy out.stdout))

  property-eq-ok : (s text : Text) → property m s ≡ ok text → text ≡ s
  property-eq-ok s text h = ground arith

  code_read :
      (code : Option ℕ) → unwrap_or (map_some (λ c. c == 0) code) false ≡ true → code ≡ some 0
  code_read none h = cc
  code_read (some c) h = ground arith

  output-Printed :
      (out : Output) (text : Text)
      → of_output m (ok out) ≡ ok text
      → (out.code ≡ some 0) × (text ≡ trim (from_utf8_lossy out.stdout))
  output-Printed out text h =
      elim (Bool-cases (unwrap_or (map_some (λ c. c == 3) out.code) false)) [
        | inl three ↦ absurd (cc (rw three at h))
        | inr other ↦ elim (Bool-cases (unwrap_or (map_some (λ c. c == 0) out.code) false)) [
          | inl z ↦ (code_read out.code z, property-eq-ok _ text (rw (other, z) at h))
          | inr fails ↦ absurd (cc (rw (other, fails) at h))
        ]
      ]

  ran-Printed :
      (drive text : Text) (r : Result Output)
      → m.powershell (bitlocker_script m drive) ≡ r
      → of_output m r ≡ ok text
      → Printed drive text
  ran-Printed drive text (err e) q h = absurd (cc h)
  ran-Printed drive text (ok out) q h =
      let (code, same) = output-Printed out text h in (out, q, code, same)

  -- What a verdict rests on: a "yes" or a "no", on a number that PowerShell printed.
  abbrev pub Rests : Text → Tri → Type 0
  Rests drive unknown = Unit
  Rests drive t = (text : Text) × Printed drive text × Meaning (parse_i64 (trim text)) t

  Printed-Rests :
      (drive text : Text) (t : Tri)
      → Printed drive text
      → Meaning (parse_i64 (trim text)) t
      → Rests drive t
  Printed-Rests drive text affirmed p h = (text, p, h)
  Printed-Rests drive text denied p h = (text, p, h)
  Printed-Rests drive text unknown p h = tt

  unread-Rests : (drive : Text) (t : Tri) → Meaning none t → Rests drive t
  unread-Rests drive affirmed h = absurd h
  unread-Rests drive denied h = absurd h
  unread-Rests drive unknown h = tt

  -- a verdict on the root and on the home alike
  abbrev pub Verdict : Value → Text → Type 0
  Verdict rows drive =
      (t : Tri) × (and_then (summary rows) (get_str (codes "root_encrypted")) ≡ some (tri_text t))
      × (and_then (summary rows) (get_str (codes "home_encrypted")) ≡ some (tri_text t))
      × Rests drive t

  rows-Verdict :
      (drive : Text) (r : Result Text)
      → ((text : Text) → r ≡ ok text → Printed drive text)
      → Verdict (bitlocker_rows m drive r) drive
  rows-Verdict drive (ok raw) printed =
      let (t, root, home, means) = windows_disk_encryption_rows-Meaning drive (some raw) in
      (t, root, home, Printed-Rests drive raw t (printed raw refl) means)
  rows-Verdict drive (err e) printed =
      unfold parse_bitlocker_protection in
      let (t, root, home, means) = windows_disk_encryption_rows-Meaning drive none in
      (t, root, home, unread-Rests drive t means)

  -- The summary row says the same of the root and of the home. It says "yes" only if PowerShell ran the
  -- query of the system drive to its end and printed the value 1 or 6, and "no" only if it did and
  -- printed 2, 3, 4, 5, 7 or 8.
  pub collect_disk_encryption_windows-Verdict :
      Verdict (collect_disk_encryption_windows m) (unwrap_or m.system_drive (codes "C:"))
  unfolding collect_disk_encryption_windows
  collect_disk_encryption_windows-Verdict =
      let drive = unwrap_or m.system_drive (codes "C:") in
      rows-Verdict drive (read_bitlocker_protection m drive)
        (λ text h. unfold read_bitlocker_protection in ran-Printed drive text _ refl h)
