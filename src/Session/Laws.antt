-- ===== src/Session/Laws.antt =====
-- What the session's methods guarantee together.
use native.Mathlib.Decide.{ℕ_discrete}
use klaayguard.Prelude.{ℕ, Option, none, ◌≡◌, ◌≢◌, ◌⊎◌, inl, inr, refl, arith}
use klaayguard.Text.{Text}
use klaayguard.Session.Race.{
  Pc, idle, adopt_label, clear_label, name_check, name_write, Shared, System, update, Move, pick,
  start, Reach, here, next, Any, Orderly, call_adopt, call_clear, call_name, adopt_first,
  adopt_second, clear_first, clear_second, name_other, name_same, name_done, load_stored,
}

abbrev pub Clearing : (ℕ → Pc) → Type 0
Clearing pc = (j : ℕ) × (pc j ≡ clear_label)

record Inv (m : Shared) (pc : ℕ → Pc) : Type 0 where
  guarded : (j : ℕ) (l : Option Text) → pc j ≡ name_write l → m.auth_token ≢ none
  asked : (j : ℕ) (l : Option Text) → pc j ≢ name_check none l
  adopted : m.auth_token ≡ none → (j : ℕ) (l : Option Text) → pc j ≢ adopt_label l
  unnamed : m.auth_token ≡ none → (m.user_label ≡ none) ⊎ Clearing pc

module _ {m : Shared} {pc : ℕ → Pc} (inv : Inv m pc) (i : ℕ) where
  open inv use {guarded, asked, adopted, unnamed}

  Move-guarded :
      {p p' : Pc} {m' : Shared}
      → Move m pc p m' p'
      → pc i ≡ p
      → (j : ℕ) (l : Option Text) → update pc i p' j ≡ name_write l
      → m'.auth_token ≢ none
  Move-guarded (call_adopt t l) e j k q = ground (arith, guarded j k)
  Move-guarded call_clear e j k q = ground (arith, guarded j k)
  Move-guarded (call_name t l) e j k q = ground (arith, guarded j k)
  Move-guarded (adopt_first u) e j k q = ground arith
  Move-guarded adopt_second e j k q = ground (arith, guarded j k)
  Move-guarded (clear_first u) e j k q = ground (arith, u j k)
  Move-guarded clear_second e j k q = ground (arith, guarded j k)
  Move-guarded (name_other n) e j k q = ground (arith, guarded j k)
  Move-guarded (name_same {t} {l} n) e j k q = λ h. asked i l (cc)
  Move-guarded name_done e j k q = ground (arith, guarded j k)
  Move-guarded (load_stored t u) e j k q = ground arith

  Move-asked :
      {p p' : Pc} {m' : Shared}
      → Move m pc p m' p'
      → (j : ℕ) (l : Option Text) → update pc i p' j ≢ name_check none l
  Move-asked (call_adopt t l) j k = ground (arith, asked j k)
  Move-asked _ j k = ground (arith, asked j k)

  Move-adopted :
      {p p' : Pc} {m' : Shared}
      → Move m pc p m' p'
      → (m'.auth_token ≡ none → (j : ℕ) (l : Option Text) → pc j ≢ adopt_label l)
      → m'.auth_token ≡ none
      → (j : ℕ) (l : Option Text) → update pc i p' j ≢ adopt_label l
  Move-adopted (call_adopt t l) o h j k = ground (arith, o h j k)
  Move-adopted _ o h j k = ground (arith, o h j k)

  keep_Clearing :
      {A : Type 0} (p' : Pc) → pc i ≢ clear_label → A ⊎ Clearing pc → A ⊎ Clearing (update pc i p')
  keep_Clearing p' ne (inl a) = inl a
  keep_Clearing p' ne (inr (j, q)) = inr (j, ground arith)

  Move-unnamed :
      {p p' : Pc} {m' : Shared}
      → Move m pc p m' p'
      → pc i ≡ p
      → m'.auth_token ≡ none
      → (m'.user_label ≡ none) ⊎ Clearing (update pc i p')
  Move-unnamed (call_adopt t l) e h = keep_Clearing _ (λ q. cc) (unnamed h)
  Move-unnamed (adopt_first u) e h = ground arith
  Move-unnamed (adopt_second {l}) e h = absurd (adopted h i l e)
  Move-unnamed (clear_first u) e h = inr (i, ground arith)
  Move-unnamed clear_second e h = inl refl
  Move-unnamed (name_done {l}) e h = absurd (guarded i l e h)
  Move-unnamed (load_stored t u) e h = ground arith
  Move-unnamed _ e h = keep_Clearing _ (λ q. cc) (unnamed h)

start-Inv : Inv start.mem start.pc
start-Inv = record {
  guarded = λ j l q. cc;
  asked = λ j l q. cc;
  adopted = λ h j l q. cc;
  unnamed = λ h. inl refl;
}

Reach-Inv : {s : System} → Reach Orderly s → Inv s.mem s.pc
Reach-Inv here = start-Inv
Reach-Inv (next r (pick i mv) ok) =
    let inv = Reach-Inv r in
    record {
      guarded = Move-guarded inv i mv refl;
      asked = Move-asked inv i mv;
      adopted = Move-adopted inv i mv ok;
      unnamed = Move-unnamed inv i mv refl;
    }

-- In every interleaving in which no token is dropped while another thread stands between the two
-- writes of `adopt_session`: whenever there is no token, there is no name either, or some thread
-- still has the second write of `clear_session` before it.
pub unnamed_without_token :
    {s : System}
    → Reach Orderly s
    → s.mem.auth_token ≡ none
    → (s.mem.user_label ≡ none) ⊎ Clearing s.pc
unnamed_without_token r = (Reach-Inv r).unnamed

-- The order of the writes is not enough against `adopt_session`: for every token and every label
-- there is an interleaving of one `adopt_session` with one `clear_session` after which all threads
-- have returned, there is no token, and the label is that of the adopted session.
pub adopt_clear_race :
    (t : Text) (l : Option Text)
    → (s : System) × Reach Any s
      × ((j : ℕ) → s.pc j ≡ idle)
      × (s.mem.auth_token ≡ none)
      × (s.mem.user_label ≡ l)
unfolding ℕ_discrete
adopt_clear_race t l =
    let begun : Reach Any start = here in
    let called = next begun (pick 0 (call_adopt t l)) tt in
    let adopting = next called (pick 0 (adopt_first (λ j k. ground arith))) tt in
    let clicked = next adopting (pick 1 call_clear) tt in
    let dropped = next clicked (pick 1 (clear_first (λ j k. ground arith))) tt in
    let cleared = next dropped (pick 1 clear_second) tt in
    (_, next cleared (pick 0 adopt_second) tt, λ j. ground arith, refl, refl)
