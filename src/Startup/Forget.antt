-- ===== src/Startup/Forget.antt =====
-- src-tauri/src/lib.rs: what `--forget-credentials` promises to the uninstaller.
use klaayguard.Prelude.{◌≡◌, ◌≢◌, refl, ◌⊎◌, inl, inr, Bool, true, false, List, some}
use klaayguard.Text.{Text, codes, Result, ok, err}
use klaayguard.Credentials.{Keyring, IsKeyring, Faults, State, load}
use klaayguard.Credentials.Store.{Honest, delete_token-Honest}
use klaayguard.LaunchAgent.{Mac, Plist}
use klaayguard.Startup.{exits, Begun, Updates, has_option, forgotten, run_options, swept}

module _ (k : Keyring) (law : IsKeyring k) (g : Faults) where
  -- The status is 0 and no token can be loaded, or 1 and one can.
  abbrev pub Forgotten : Begun k → Type 0
  Forgotten b =
      ((b.course ≡ exits 0) × ((v : Text) → load k g b.store ≢ ok (some v)))
      ⊎ ((b.course ≡ exits 1) × ((v : Text) × (load k g b.store ≡ ok (some v))))

  forgotten-Forgotten :
      (p : Plist) (d : Bool) (r : Result (Unit {0}) × State k)
      → Honest k law g r
      → Forgotten (forgotten k p d r)
  forgotten-Forgotten p d (ok u, st) h = inl (refl, h)
  forgotten-Forgotten p d (err m, st) h = inr (refl, h)

  -- With a fallback file that can be removed, an agent that is run to forget its credentials exits with 0 exactly
  -- if no token is left to load, for a load that finds the keyring as accessible.
  pub run_options-Forgotten :
      (os : Text) (f : Faults) (u : Updates) (m : Mac) (args : List Text) (st : State k) (p : Plist)
      → has_option (codes "--forget-credentials") args ≡ true
      → f.remove ≡ false
      → g.data_dir ≡ f.data_dir
      → g.locked ≡ f.locked
      → Forgotten (run_options k os f u m args st p)
  unfolding run_options
  run_options-Forgotten os f u m args st p o r e lk =
      rw o (forgotten-Forgotten p (swept os u) _ (delete_token-Honest k law f g st r e lk))
