-- ===== src/Tests/Restarts.antt =====
-- Runs of the session from one process to the next.
use klaayguard.Prelude.{ℕ, ◌≡◌, refl, Bool, true, false, none, some}
use klaayguard.Text.{Text, codes}
use klaayguard.Credentials
use klaayguard.Credentials.{keyring, State}
use klaayguard.Autostart
use klaayguard.Autostart.{Process, Files}
use klaayguard.Autostart.RunKey.{Access}
use klaayguard.Lifecycle.{sign_out, adopt_token}
use klaayguard.Lifecycle.Restart.{
  next_token, incomplete, Announced, sign_out-Announced, sign_out-locked, adopt_token-restart,
}
use klaayguard.Tests.Fixtures.{
  ring, ring-IsKeyring, no_faults, empty_store, old_file, signed_in, signed_out, working, answer,
}

abbrev plain : Process
plain = record {
  config_dir = some (codes "/home/ann/.config");
  current_exe = some (codes "/usr/bin/klaayguard");
  appimage = none;
  appdir = none;
  is_file = λ path. true;
}

abbrev writable : Autostart.Faults
writable = record {
  read = false;
  create_dir = false;
  write = false;
  partial = none;
  rename = false;
}

abbrev no_registry : Access
no_registry = record { current_exe = none; opens = false; reads = false; writes = false }

abbrev no_entry : Files
no_entry = record { entry = none; tmp = none }

abbrev api : Text
api = codes "https://api.klaay.com"

sign_out-Announced_example :
    let a = sign_out ring (codes "linux") no_faults signed_in old_file in
    (a.app.auth_token ≡ none)
    × (a.app.user_label ≡ none)
    × Announced ring ring-IsKeyring no_faults no_faults writable plain no_registry working api
        no_entry none
        (codes "linux")
        a.events
        a.store
sign_out-Announced_example =
    sign_out-Announced ring ring-IsKeyring no_faults no_faults writable plain no_registry working
      api no_entry none (codes "linux") signed_in old_file refl refl refl

abbrev locked_ring : Credentials.Faults
locked_ring = record no_faults { locked = true }

abbrev kept : State ring
kept = record { entry = some (codes "t0"); disk = record { file = none; tmp = none } }

sign_out-locked_example :
    let o = sign_out ring (codes "linux") locked_ring signed_in kept in
    (incomplete o.events ≡ false)
    × (next_token ring ring-IsKeyring locked_ring no_faults writable plain no_registry working api
          no_entry none o.store
        ≡ some (codes "t0"))
sign_out-locked_example =
    sign_out-locked ring ring-IsKeyring locked_ring no_faults writable plain no_registry working api
      no_entry none (codes "linux") signed_in kept (codes "t0") refl refl refl refl refl refl

-- no character formats
abbrev no_format : ℕ → Bool
no_format c = false

adopt_token-restart_example :
    next_token ring ring-IsKeyring no_faults no_faults writable plain no_registry working api
      no_entry none
      (adopt_token ring no_format no_faults
        (answer 503 none 0)
        (codes "t1")
        signed_out
        empty_store).store
    ≡ some (codes "t1")
unfolding klaayguard.Credentials.save_token klaayguard.Credentials.keyring_set
    klaayguard.Label.fetch_identity
adopt_token-restart_example =
    adopt_token-restart ring ring-IsKeyring no_faults no_faults writable plain no_registry working
      api no_entry none no_format (answer 503 none 0) (codes "t1") signed_out empty_store
      {c = keyring} (λ z. absurd (cc z)) refl (λ z. absurd (cc z)) refl refl refl refl
