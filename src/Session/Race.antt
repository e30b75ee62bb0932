-- ===== src/Session/Race.antt =====
-- src-tauri/src/lib.rs: `adopt_session`, `clear_session` and `name_holder_of` run by any number of
-- threads, one lock operation at a time. The guards of `auth_token` and `user_label` are those of
-- the two `RwLock`s: a write waits while a thread holds the read guard of `auth_token`.
use mathlib.Core.Logic.{ite}
use native.Mathlib.Decide.{ℕ_discrete}
use klaayguard.Prelude.{ℕ, Option, none, some, ◌≡◌, ◌≢◌}
use klaayguard.Text.{Text}

-- Where a thread stands, with the arguments that it still needs.
pub data Pc : Type 0 where
  idle : Pc
  adopt_token : (token : Text) → (label : Option Text) → Pc  -- before the first write
  adopt_label : (label : Option Text) → Pc  -- between the two writes of `adopt_session`
  clear_token : Pc
  clear_label : Pc  -- between the two writes of `clear_session`
  name_check : (token : Option Text) → (label : Option Text) → Pc  -- before the read guard
  name_write : (label : Option Text) → Pc  -- the read guard is held, and the tokens were equal

pub record Shared : Type 0 where
  pub auth_token : Option Text
  pub user_label : Option Text

pub record System : Type 0 where
  pub mem : Shared
  pub pc : ℕ → Pc

abbrev pub update : (ℕ → Pc) → ℕ → Pc → ℕ → Pc
update f i p j = ite (ℕ_discrete i j) p (f j)

-- `lock_write(&auth_token)` waits for every read guard of `name_holder_of`.
abbrev pub Unguarded : (ℕ → Pc) → Type 0
Unguarded pc = (j : ℕ) (l : Option Text) → pc j ≢ name_write l

pub data Move (m : Shared) (pc : ℕ → Pc) : Pc → Shared → Pc → Type 0 where
  call_adopt : (t : Text) (l : Option Text) → Move m pc idle m (adopt_token t l)
  call_clear : Move m pc idle m clear_token
  call_name : (t : Text) (l : Option Text) → Move m pc idle m (name_check (some t) l)
  adopt_first :
      {t : Text} {l : Option Text}
      → Unguarded pc
      → Move m pc (adopt_token t l) (record m { auth_token = some t }) (adopt_label l)
  adopt_second : {l : Option Text} → Move m pc (adopt_label l) (record m { user_label = l }) idle
  clear_first : Unguarded pc → Move m pc clear_token (record m { auth_token = none }) clear_label
  clear_second : Move m pc clear_label (record m { user_label = none }) idle
  name_other : {t l : Option Text} → m.auth_token ≢ t → Move m pc (name_check t l) m idle
  name_same : {t l : Option Text} → m.auth_token ≡ t → Move m pc (name_check t l) m (name_write l)
  name_done : {l : Option Text} → Move m pc (name_write l) (record m { user_label = l }) idle
  -- `startup_blocking_work` stores a loaded token with one write.
  load_stored : (t : Text) → Unguarded pc → Move m pc idle (record m { auth_token = some t }) idle

pub data Step (s : System) : System → Type 0 where
  pick :
      (i : ℕ) {m : Shared} {p : Pc}
      → Move s.mem s.pc (s.pc i) m p
      → Step s (record { mem = m; pc = update s.pc i p })

-- Runs from the start of the process whose every step is allowed by `Ok`.
abbrev pub start : System
start = record { mem = record { auth_token = none; user_label = none }; pc = λ _. idle }

pub data Reach (Ok : System → System → Type 0) : System → Type 0 where
  here : Reach Ok start
  next : {s t : System} → Reach Ok s → Step s t → Ok s t → Reach Ok t

-- Every interleaving.
abbrev pub Any : System → System → Type 0
Any s t = Unit

-- No token is dropped while another thread stands between the two writes of `adopt_session`.
abbrev pub Orderly : System → System → Type 0
Orderly s t = t.mem.auth_token ≡ none → (j : ℕ) (l : Option Text) → s.pc j ≢ adopt_label l
