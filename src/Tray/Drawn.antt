-- ===== src/Tray/Drawn.antt =====
-- src-tauri/src/lib.rs: the tray against the menu that is drawn from the state alone.
use klaayguard.Prelude.{
  ℕ, ◌≡◌, refl, ◌∙◌, Bool, true, false, List, [], ◌∷◌, ◌++◌, Option, none, some,
}
use klaayguard.Text.{Text}
use klaayguard.Session.{AppState}
use klaayguard.Tray.{Item, MenuApi, IsMenuApi, Dot, look, TrayMenu, starting, refresh_tray}
use klaayguard.Tray.Consistent.{
  shows, looks, draw_look, drawn_for, draw, view, refreshed, IsConsistent, starting-IsConsistent,
  refresh_tray-IsConsistent,
}

module _ (api : MenuApi) where
  module _ (good : IsMenuApi api) where
    view-equal :
        {xs ys : List Item} {c d : Dot} (text : Text) (enabled : Bool) (name : Option Text)
        → xs ≡ ys
        → c ≡ d
        → shows xs text enabled name c ≡ shows ys text enabled name d
    view-equal text enabled name e q = rw (e, q) refl

    -- A tray that is consistent shows, after a refresh, what is drawn from the same look.
    refresh_tray-draw_look :
        (text : Text) (enabled : Bool) (label : Option Text) (t : TrayMenu api)
        → IsConsistent api (refresh_tray api (looks text enabled label) t)
        → view api (refresh_tray api (looks text enabled label) t)
          ≡ draw_look (looks text enabled label)
    unfolding refresh_tray
    refresh_tray-draw_look text true none t h = view-equal text true none h.lines h.dot
    refresh_tray-draw_look text true (some n) t h = view-equal text true (some n) h.lines h.dot
    refresh_tray-draw_look text false none t h = view-equal text false none h.lines h.dot
    refresh_tray-draw_look text false (some n) t h = view-equal text false (some n) h.lines h.dot

    module _ (interval : ℕ) where
      refreshed-IsConsistent :
          (history : List (ℕ × AppState)) (t : TrayMenu api)
          → IsConsistent api t
          → IsConsistent api (refreshed api interval history t)
      refreshed-IsConsistent [] t h = h
      refreshed-IsConsistent ((now, s) ∷ r) t h =
          refreshed-IsConsistent r _ (refresh_tray-IsConsistent api good (look interval now s) t h)

      refreshed-append :
          (history : List (ℕ × AppState)) (now : ℕ) (s : AppState) (t : TrayMenu api)
          → refreshed api interval (history ++ ((now, s) ∷ [])) t
            ≡ refresh_tray api (look interval now s) (refreshed api interval history t)
      refreshed-append [] now s t = refl
      refreshed-append ((n, a) ∷ r) now s t = refreshed-append r now s _

draw_look-look :
    (interval now : ℕ) (s : AppState) (token : Option Text)
    → s.auth_token ≡ token
    → draw_look (look interval now s) ≡ drawn_for token interval now s
unfolding look
draw_look-look interval now s none e = rw e refl
draw_look-look interval now s (some t) e = rw e refl

-- With a menu that does what the crate documents, and whatever refreshes came before, the tray shows after a refresh what is drawn at once from the state and
-- the clock: the name line is on top exactly when there is a name, "Sign out" at the bottom and the green
-- dot are there exactly when there is a token, each line once, and the status item reads "Sign in" or the
-- countdown.
pub refresh_tray-draw :
    (api : MenuApi)
    → IsMenuApi api
    → (interval : ℕ) (history : List (ℕ × AppState)) (now : ℕ) (s : AppState)
    → view api (refreshed api interval (history ++ ((now, s) ∷ [])) (starting api))
      ≡ draw interval now s
refresh_tray-draw api good interval history now s =
    let before =
      refreshed-IsConsistent api good interval history (starting api)
        (starting-IsConsistent api good) in
    let l = look interval now s in
    rw (refreshed-append api good interval history now s (starting api)) (
      refresh_tray-draw_look api good l.text l.enabled l.user_label _
        (refresh_tray-IsConsistent api good l _ before)
      ∙ draw_look-look interval now s s.auth_token refl)
