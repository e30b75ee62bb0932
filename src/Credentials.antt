-- ===== src/Credentials.antt =====
-- src-tauri/src/keychain.rs: one account's credential, in the OS keyring or in the fallback file.
-- The keyring is the `keyring` crate, a parameter; the file system is modelled step by step, with
-- the steps that fail given by `Faults`. Permissions are left out, and an error message is its
-- fixed text, without that of the error inside.
use klaayguard.Prelude.{
  Bool, true, false, Option, none, some, if◌then◌else◌, ◌||◌, not, is_some, ◌≡◌, ◌≢◌, and_then, [],
  ◌∷◌, ◌++◌,
}
use klaayguard.Text.{Text, codes, Result, ok, err}
pub mod Files
pub mod Store
pub mod Target

-- What reading a keyring entry gives: `Error::NoEntry` is told apart from the other errors.
pub data Read : Type 0 where
  found : Text → Read
  no_entry : Read
  read_error : Text → Read

pub data Deletion (S : Type 0) : Type 0 where
  deleted : S → Deletion S
  nothing_there : Deletion S
  delete_error : Text → Deletion S

-- An entry of the `keyring` crate, as long as the platform gives access to it; an operation that meets it locked or
-- absent (`Faults.locked`) is refused, whatever it holds. A refused call leaves the store as it was.
pub record Keyring : Type 1 where
  pub Store : Type 0
  pub opens : Store → Bool  -- `Entry::new` succeeds
  pub set_password : Text → Store → Result Store
  pub get_password : Store → Read
  pub delete_credential : Store → Deletion Store

-- The crate's documentation: what was set is what is read, and a deleted entry is not found.
pub record IsKeyring (k : Keyring) : Type 0 where
  pub set_get : (v : Text) (s t : k.Store) → k.set_password v s ≡ ok t → k.get_password t ≡ found v
  pub set_opens : (v : Text) (s t : k.Store) → k.set_password v s ≡ ok t → k.opens t ≡ k.opens s
  pub deleted_get :
      (s t : k.Store) → k.delete_credential s ≡ deleted t → (v : Text) → k.get_password t ≢ found v
  pub nothing_get :
      (s : k.Store)
      → k.delete_credential s ≡ nothing_there
      → (v : Text) → k.get_password s ≢ found v

-- The steps of the file system that fail, and what a failed write leaves behind.
pub record Faults : Type 0 where
  pub data_dir : Bool  -- there is no data directory
  pub dir : Bool
  pub clear : Bool  -- a left-over temporary file cannot be removed
  pub create : Bool
  pub write : Bool
  pub partial : Text
  pub sync : Bool
  pub rename : Bool
  pub read : Bool
  pub remove : Bool
  pub locked : Bool  -- the platform refuses access to the keyring during the operation

pub record Disk : Type 0 where
  pub file : Option Text
  pub tmp : Option Text

-- `remove_file(&tmp)`, its result ignored
abbrev pub cleared : Faults → Disk → Disk
cleared f d = if f.clear then d else record d { tmp = none }

abbrev pub written : Faults → Text → Disk → Result (Unit {0}) × Disk
written f v d =
    if f.write
    then (err (codes "credential write"), record d { tmp = some f.partial })
    else if f.sync
    then (err (codes "credential sync"), record d { tmp = some v })
    else if f.rename
    then (err (codes "credential rename"), record d { tmp = some v })
    else (ok tt, record { file = some v; tmp = none })

-- Rename over the target, so that no step but the last one touches it.
unfoldable pub file_save_at : Faults → Text → Disk → Result (Unit {0}) × Disk
file_save_at f v d =
    if f.dir
    then (err (codes "credential dir"), d)
    else if f.create || is_some (cleared f d).tmp
    then (err (codes "credential create"), cleared f d)
    else written f v (cleared f d)

abbrev non_empty : Text → Option Text
non_empty [] = none
non_empty (c ∷ s) = some (c ∷ s)

-- an empty or unreadable file is no credential
unfoldable pub file_load_at : Faults → Disk → Option Text
file_load_at f d = if f.read then none else and_then d.file non_empty

unfoldable pub file_delete_at : Faults → Disk → Disk
file_delete_at f d = if f.remove then d else record d { file = none }

unfoldable pub file_save : Faults → Text → Disk → Result (Unit {0}) × Disk
file_save f v d =
    if f.data_dir
    then (err (codes "no data dir for credential fallback"), d)
    else file_save_at f v d

unfoldable pub file_load : Faults → Disk → Option Text
file_load f d = if f.data_dir then none else file_load_at f d

unfoldable pub file_delete : Faults → Disk → Disk
file_delete f d = if f.data_dir then d else file_delete_at f d

pub data CredentialStore : Type 0 where
  keyring file : CredentialStore

module _ (k : Keyring) where
  pub record State : Type 0 where
    pub entry : k.Store
    pub disk : Disk

  unfoldable pub keyring_set : Faults → Text → k.Store → Result k.Store
  keyring_set f v s =
      if not (k.opens s)
      then err (codes "keychain new entry error")
      else if f.locked
      then err (codes "keychain set error")
      else k.set_password v s

  abbrev read_result : Read → Result (Option Text)
  read_result (found v) = ok (some v)
  read_result no_entry = ok none
  read_result (read_error e) = err e

  unfoldable pub keyring_get : Faults → k.Store → Result (Option Text)
  keyring_get f s =
      if not (k.opens s)
      then err (codes "keychain new entry error")
      else if f.locked
      then err (codes "keychain get error")
      else read_result (k.get_password s)

  abbrev pub both_failed : Text → Text → Text
  both_failed e fe =
      codes "keyring failed (" ++ (e ++ (codes "); file fallback failed (" ++ (fe ++ codes ")")))

  abbrev pub saved_to_file :
      Text → k.Store → Result (Unit {0}) × Disk → Result CredentialStore × State
  saved_to_file e s (ok _, d) = (ok file, record { entry = s; disk = d })
  saved_to_file e s (err fe, d) = (err (both_failed e fe), record { entry = s; disk = d })

  abbrev pub saved : Faults → Text → State → Result k.Store → Result CredentialStore × State
  saved f v s (ok t) = (ok keyring, record { entry = t; disk = file_delete f s.disk })
  saved f v s (err e) = saved_to_file e s.entry (file_save f v s.disk)

  -- `save_token`; `save_device_identity` is the same but for the name of the store in its result
  unfoldable pub save_token : Faults → Text → State → Result CredentialStore × State
  save_token f v s = saved f v s (keyring_set f v s.entry)

  abbrev pub forget_store : Result CredentialStore × State → Result (Unit {0}) × State
  forget_store (ok _, s) = (ok tt, s)
  forget_store (err e, s) = (err e, s)

  unfoldable pub save_device_identity : Faults → Text → State → Result (Unit {0}) × State
  unfolding save_token
  save_device_identity f v s = forget_store (save_token f v s)

  abbrev loaded : Faults → State → Option Text → Result (Option Text)
  loaded f s (some v) = ok (some v)
  loaded f s none = keyring_get f s.entry

  -- `load`, and so `load_token` and `load_device_identity`: the file first
  unfoldable pub load : Faults → State → Result (Option Text)
  load f s = loaded f s (file_load f s.disk)

  -- after a refused delete: an error only if the token can still be read
  abbrev pub refused : Result (Option Text) → Result (Unit {0})
  refused (ok (some v)) = err (codes "keyring delete failed; the token is still stored")
  refused (ok none) = ok tt
  refused (err e) = ok tt

  abbrev pub deletion : Faults → State → Deletion k.Store → Result (Unit {0}) × State
  deletion f s (deleted t) = (ok tt, record s { entry = t })
  deletion f s nothing_there = (ok tt, s)
  deletion f s (delete_error e) = (refused (keyring_get f s.entry), s)

  abbrev pub removal : Faults → k.Store → Deletion k.Store
  removal f s = if f.locked then delete_error (codes "no storage access") else k.delete_credential s

  unfoldable pub delete_token : Faults → State → Result (Unit {0}) × State
  delete_token f s =
      let s' = record s { disk = file_delete f s.disk } in
      if k.opens s.entry then deletion f s' (removal f s.entry) else (ok tt, s')
