-- ===== src/Credentials/Files.antt =====
-- The fallback file.
use klaayguard.Prelude.{◌≡◌, none, some, arith}
use klaayguard.Text.{Text, Result, ok, err}
use klaayguard.Credentials.{Faults, Disk, file_save_at}

abbrev pub SavedOr : Text → Disk → Result (Unit {0}) × Disk → Type 0
SavedOr v d (ok _, d') = (d'.file ≡ some v) × (d'.tmp ≡ none)
SavedOr v d (err e, d') = d'.file ≡ d.file

-- Whichever steps fail: a save that succeeds leaves the value in the file and no temporary file, and
-- a save that fails leaves the file as it was.
pub file_save_at-atomic : (f : Faults) (v : Text) (d : Disk) → SavedOr v d (file_save_at f v d)
unfolding file_save_at
file_save_at-atomic f v d = ground arith
