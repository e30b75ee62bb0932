-- ===== src/Installer/Kept.antt =====
-- src-tauri/src/lib.rs: no update loses the program that is installed.
use klaayguard.Prelude.{
  ◌≡◌, refl, sym, ◌⊎◌, inl, inr, Bool, true, false, ◌||◌, Option, none, some, if◌then◌else◌,
  is_some, subst,
}
use klaayguard.Text.{Text, codes, Result, ok, err}
use klaayguard.Autostart.{Process, own_appimage}
use klaayguard.Installer.{Content, dropped}
use klaayguard.Installer.AppImage
use klaayguard.Installer.AppImage.{
  Files, failed, relaunched, renamed, staged_write, reopened, opened, with_target,
  install_appimage_update,
}
use klaayguard.Installer.Bundle
use klaayguard.Installer.Bundle.{
  Apps, Signature, Ditto, spawn_failed, copy_failed, copied, verify_klaay_signature, cleared,
  rolled_back, moved_in, swapped, verified_swap, staged_copy, stage_verify_and_swap,
}

module _ (f : AppImage.Faults) (bytes : Content) where
  -- An error leaves the program that runs in its place, and the process stays.
  abbrev pub ReplacedAt : Content → AppImage.Outcome → Result (Unit {0}) → Type 0
  ReplacedAt old o (ok u) = (o.files.target ≡ bytes) × (o.files.staged ≡ none)
  ReplacedAt old o (err m) = (o.files.target ≡ old) × (o.exits ≡ false)

  abbrev pub Replaced : Content → AppImage.Outcome → Type 0
  Replaced old o = ReplacedAt old o o.result

  if-Replaced :
      (old : Content) (b : Bool) (x y : AppImage.Outcome)
      → Replaced old x
      → Replaced old y
      → Replaced old (if b then x else y)
  if-Replaced old true x y h k = h
  if-Replaced old false x y h k = k

  staged_write-Replaced : (d : Files) → Replaced d.target (staged_write f bytes d)
  staged_write-Replaced d =
      if-Replaced d.target (f.write || (f.sync || f.chmod)) _ _ (refl, refl)
        (if-Replaced d.target f.rename _ _ (refl, refl) (refl, refl))

  opened-Replaced : (d : Files) → Replaced d.target (opened f bytes d)
  opened-Replaced d =
      let d' = record d { staged = dropped f.remove d.staged } in
      if-Replaced d.target f.create _ _ (refl, refl)
        (if-Replaced d.target (is_some d.staged) _ _
          (if-Replaced d.target (f.recreate || is_some d'.staged) _ _ (refl, refl)
            (staged_write-Replaced d'))
          (staged_write-Replaced d))

  with_target-Replaced : (o : Option Text) (d : Files) → Replaced d.target (with_target f bytes o d)
  with_target-Replaced none d = (refl, refl)
  with_target-Replaced (some t) d = opened-Replaced d

-- Whatever steps fail: an installation of an AppImage that reports an error has left the image as it was, and
-- the process keeps running; one that reports none has put the new bytes in its place, and nothing is staged.
pub install_appimage_update-Replaced :
    (f : AppImage.Faults) (p : Process) (bytes : Content) (d : Files)
    → Replaced f bytes d.target (install_appimage_update f p bytes d)
unfolding install_appimage_update
install_appimage_update-Replaced f p bytes d = with_target-Replaced f bytes (own_appimage p) d

module _ (signature : Content → Signature) (f : Bundle.Faults) (old : Content) where
  -- the app that was copied passes the checks
  abbrev pub Verified : Content → Type 0
  Verified new = (f.ditto ≡ copied new) × (verify_klaay_signature (signature new) ≡ ok tt)

  abbrev pub Safe : Result (Unit {0}) × Apps → Type 0
  Safe (ok u, a) = (new : Content) × Verified new × (a.target ≡ some new)
  Safe (err m, a) =
      (a.target ≡ some old) ⊎ ((f.back ≡ true) × (a.target ≡ none) × (a.backup ≡ some old))

  if-Safe :
      (b : Bool) (x y : Result (Unit {0}) × Apps) → Safe x → Safe y → Safe (if b then x else y)
  if-Safe true x y h k = h
  if-Safe false x y h k = k

  rolled_back-Safe :
      (m : Text) (staged : Option Content) (back : Bool)
      → f.back ≡ back
      → Safe (
        err m,
        rolled_back f (some old) (record { target = none; staged = staged; backup = some old }),
      )
  rolled_back-Safe m staged true e = rw e (inr (refl, refl, refl))
  rolled_back-Safe m staged false e = rw e (inl refl)

  swapped-Safe :
      (new : Content) (a : Apps)
      → Verified new
      → a.target ≡ some old
      → Safe (swapped f new (some old) a)
  swapped-Safe new a v t = if-Safe (f.aside || is_some a.backup) _ _ (inl t) (
      if-Safe f.swap _ _
        (rolled_back-Safe (codes "Failed to swap new app into place") a.staged f.back refl)
        (new, v, refl))

  verified_swap-Safe :
      (new : Content) (r : Result (Unit {0})) (a : Apps)
      → f.ditto ≡ copied new
      → verify_klaay_signature (signature new) ≡ r
      → a.target ≡ some old
      → Safe (verified_swap f new r a)
  verified_swap-Safe new (err m) a e v t = inl t
  verified_swap-Safe new (ok u) a e v t =
      subst (λ o. Safe (swapped f new o (record a { staged = some new }))) (sym t)
        (swapped-Safe new (record a { staged = some new }) (e, v) t)

  staged_copy-Safe :
      (c : Ditto) (a : Apps)
      → f.ditto ≡ c
      → a.target ≡ some old
      → Safe (staged_copy signature f c a)
  staged_copy-Safe spawn_failed a e t = inl t
  staged_copy-Safe (copy_failed part) a e t = inl t
  staged_copy-Safe (copied new) a e t = verified_swap-Safe new _ a e refl t

  -- Whatever steps fail, with an app in place: an update of the bundle that reports none has put an app in
  -- its place that was copied beside it and passed the checks of the signature. One that reports an error
  -- has left the old app in its place, or beside it, where the roll back itself failed.
  pub stage_verify_and_swap-Safe :
      (a : Apps) → a.target ≡ some old → Safe (stage_verify_and_swap signature f a)
  unfolding stage_verify_and_swap
  stage_verify_and_swap-Safe a t = staged_copy-Safe f.ditto (cleared f a) refl t
