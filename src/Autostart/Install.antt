-- ===== src/Autostart/Install.antt =====
-- src-tauri/src/lib.rs: what `install_autostart_entry` does to the entry.
use klaayguard.Prelude.{
  ◌≡◌, refl, sym, ◌∙◌, ap, Bool, true, false, Option, none, some, ◌⊎◌, inl, inr, Bool-cases,
}
use klaayguard.Text.{Text, eq_text, Result, ok, err}
use klaayguard.Text.Laws.{eq_text_iff}
use klaayguard.Autostart.{
  Process, Faults, Files, renamed, written, existing, refreshed, entry_of, with_exe, with_dir,
  autostart_is_user_disabled, install_autostart_entry,
}

-- what was read of the entry says that the user disabled it
abbrev pub read_disabled : Option Text → Bool
read_disabled none = false
read_disabled (some old) = autostart_is_user_disabled old

-- An error leaves the entry as it was. A success leaves all as it was if the entry was read and the user
-- disabled it, and else the entry is the one of the program that runs.
abbrev pub Installed : Faults → Process → Files → Result (Unit {0}) × Files → Type 0
Installed f p d (err e, after) = after.entry ≡ d.entry
Installed f p d (ok u, after) =
    ((read_disabled (existing f d) ≡ true) × (after ≡ d))
    ⊎ ((read_disabled (existing f d) ≡ false)
        × ((exe : Text) × (p.current_exe ≡ some exe) × (after.entry ≡ some (entry_of p exe))))

module _ (f : Faults) (p : Process) (exe : Text) (found : p.current_exe ≡ some exe) where
  module _ (d : Files) (enabled : read_disabled (existing f d) ≡ false) where
    renamed-Installed : Installed f p d (renamed f (entry_of p exe) d)
    renamed-Installed = elim (Bool-cases f.rename) [
      | inl e ↦ rw e refl
      | inr e ↦ rw e (inr (enabled, (exe, found, refl)))
    ]

    written-Installed : Installed f p d (written f (entry_of p exe) d)
    written-Installed = elim (Bool-cases f.create_dir) [
      | inl e ↦ rw e refl
      | inr e ↦ elim (Bool-cases f.write) [
        | inl w ↦ rw (e, w) refl
        | inr w ↦ rw (e, w) renamed-Installed
      ]
    ]

  refreshed-Installed :
      (o : Option Text) (d : Files)
      → existing f d ≡ o
      → (o ≡ none) ⊎ (o ≡ d.entry)
      → Installed f p d (refreshed f (entry_of p exe) o d)
  refreshed-Installed none d q h = written-Installed d (rw q refl)
  refreshed-Installed (some old) d q (inl h) = absurd (cc (h))
  refreshed-Installed (some old) d q (inr h) = elim (Bool-cases (autostart_is_user_disabled old)) [
    | inl e ↦ rw e (inl (rw q e, refl))
    | inr e ↦ elim (Bool-cases (eq_text old (entry_of p exe))) [
      | inl same ↦
          rw (e, same)
            (inr
              (rw q e, (exe, found, sym h ∙ ap some ((eq_text_iff old (entry_of p exe)).0 same))))
      | inr other ↦ rw (e, other) (written-Installed d (rw q e))
    ]
  ]

existing-cases : (f : Faults) (d : Files) → (existing f d ≡ none) ⊎ (existing f d ≡ d.entry)
existing-cases f d = elim (Bool-cases f.read) [ inl e ↦ inl (rw e refl) | inr e ↦ inr (rw e refl) ]

-- Whatever steps fail: a run of `install_autostart_entry` that reports an error leaves the entry as it was. A
-- run that reports none leaves the files as they were if it read an entry that the user disabled, and else
-- the entry is the one of the program that runs.
pub install_autostart_entry-Installed :
    (f : Faults) (p : Process) (d : Files) → Installed f p d (install_autostart_entry f p d)
unfolding install_autostart_entry
install_autostart_entry-Installed f p d = by_dir p.config_dir
  where
    by_exe : (o : Option Text) → p.current_exe ≡ o → Installed f p d (with_exe f p o d)
    by_exe none e = refl
    by_exe (some exe) e = refreshed-Installed f p exe e (existing f d) d refl (existing-cases f d)

    by_dir : (o : Option Text) → Installed f p d (with_dir f p o d)
    by_dir none = refl
    by_dir (some dir) = by_exe p.current_exe refl
