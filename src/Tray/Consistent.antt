-- ===== src/Tray/Consistent.antt =====
-- src-tauri/src/lib.rs: what the tray shows, and that its flags agree with its menu and its dot.
use klaayguard.Prelude.{
  ℕ, ◌≡◌, refl, ◌∙◌, ap, Bool, true, false, not, List, [], ◌∷◌, ◌++◌, Option, none, some, filter,
  is_some,
}
use klaayguard.Text.{Text, codes}
use klaayguard.Session.{AppState}
use klaayguard.Tray.{
  Item, user, sign_out, MenuApi, IsMenuApi, Dot, red, green, Look, look, neutral_items, dot_of,
  TrayMenu, starting, fmt_countdown, remaining, set_item, show_user, show_session, refresh_tray,
  same_item,
}

-- What a person sees: the items from top to bottom, the status item, the name where it is shown, the dot.
pub record View : Type 0 where
  items : List Item
  text : Text
  enabled : Bool
  name : Option Text
  dot : Dot

abbrev pub user_line : Bool → List Item
user_line true = user ∷ []
user_line false = []

abbrev pub sign_out_line : Bool → List Item
sign_out_line true = sign_out ∷ []
sign_out_line false = []

abbrev pub layout : Bool → Bool → List Item
layout named signed_in = user_line named ++ (neutral_items ++ sign_out_line signed_in)

abbrev pub shows : List Item → Text → Bool → Option Text → Dot → View
shows items text enabled name dot = record {
  items = items;
  text = text;
  enabled = enabled;
  name = name;
  dot = dot;
}

abbrev pub looks : Text → Bool → Option Text → Look
looks text enabled label = record { text = text; enabled = enabled; user_label = label }

abbrev pub draw_look : Look → View
draw_look l =
    shows (layout (is_some l.user_label) (not l.enabled)) l.text l.enabled l.user_label
      (dot_of (not l.enabled))

-- the whole tray, drawn at once for the token that the process has
abbrev pub drawn_for : Option Text → ℕ → ℕ → AppState → View
drawn_for none interval now s =
    shows (layout (is_some s.user_label) false) (codes "Sign in") true s.user_label red
drawn_for (some token) interval now s =
    shows (layout (is_some s.user_label) true)
      (fmt_countdown (remaining interval now s.last_attempt_at)) false s.user_label green

abbrev pub draw : ℕ → ℕ → AppState → View
draw interval now s = drawn_for s.auth_token interval now s

module _ (api : MenuApi) where
  abbrev shown_name : Bool → Text → Option Text
  shown_name true t = some t
  shown_name false t = none

  abbrev pub view : TrayMenu api → View
  view t = record {
    items = api.items t.menu;
    text = t.item_text;
    enabled = t.item_enabled;
    name = shown_name t.user_shown t.user_text;
    dot = t.icon;
  }

  -- a refresh at each of the times, of the state at that time
  abbrev pub refreshed : ℕ → List (ℕ × AppState) → TrayMenu api → TrayMenu api
  refreshed interval [] t = t
  refreshed interval ((now, s) ∷ r) t =
      refreshed interval r (refresh_tray api (look interval now s) t)

  -- the flags agree with the menu and the dot
  pub record IsConsistent (t : TrayMenu api) : Type 0 where
    pub lines : api.items t.menu ≡ layout t.user_shown t.last_signed_in
    pub dot : t.icon ≡ dot_of t.last_signed_in

  module _ (good : IsMenuApi api) where
    pub starting-IsConsistent : IsConsistent (starting api)
    unfolding starting
    starting-IsConsistent = record { lines = good.items-with_items neutral_items; dot = refl }

    -- removing an item that the rest has not
    user-leaves :
        (m : api.Menu) (d : Bool)
        → api.items m ≡ layout true d
        → api.items (api.remove user m) ≡ layout false d
    user-leaves m true h = good.items-remove user m ∙ ap (filter (λ j. not (same_item user j))) h
    user-leaves m false h = good.items-remove user m ∙ ap (filter (λ j. not (same_item user j))) h

    sign_out-leaves :
        (m : api.Menu) (b : Bool)
        → api.items m ≡ layout b true
        → api.items (api.remove sign_out m) ≡ layout b false
    sign_out-leaves m true h =
        good.items-remove sign_out m ∙ ap (filter (λ j. not (same_item sign_out j))) h
    sign_out-leaves m false h =
        good.items-remove sign_out m ∙ ap (filter (λ j. not (same_item sign_out j))) h

    sign_out-joins :
        (m : api.Menu) (b : Bool)
        → api.items m ≡ layout b false
        → api.items (api.append sign_out m) ≡ layout b true
    sign_out-joins m true h = good.items-append sign_out m ∙ ap (λ xs. xs ++ (sign_out ∷ [])) h
    sign_out-joins m false h = good.items-append sign_out m ∙ ap (λ xs. xs ++ (sign_out ∷ [])) h

    show_user-lines :
        (b c d : Bool) (t : TrayMenu api)
        → t.user_shown ≡ c
        → t.last_signed_in ≡ d
        → api.items t.menu ≡ layout c d
        → api.items (show_user api b t).menu ≡ layout b d
    show_user-lines true true d t e q h = rw e h
    show_user-lines true false d t e q h =
        rw e (good.items-prepend user t.menu ∙ ap (λ xs. user ∷ xs) h)
    show_user-lines false true d t e q h = rw e (user-leaves t.menu d h)
    show_user-lines false false d t e q h = rw e h

    show_user-IsConsistent :
        (b : Bool) (t : TrayMenu api) → IsConsistent t → IsConsistent (show_user api b t)
    show_user-IsConsistent true t h = record {
      lines = show_user-lines true t.user_shown t.last_signed_in t refl refl h.lines;
      dot = h.dot;
    }
    show_user-IsConsistent false t h = record {
      lines = show_user-lines false t.user_shown t.last_signed_in t refl refl h.lines;
      dot = h.dot;
    }

    show_session-lines :
        (b c d : Bool) (t : TrayMenu api)
        → t.user_shown ≡ c
        → t.last_signed_in ≡ d
        → api.items t.menu ≡ layout c d
        → api.items (show_session api b t).menu ≡ layout c b
    show_session-lines true c true t e q h = rw q h
    show_session-lines true c false t e q h = rw q (sign_out-joins t.menu c h)
    show_session-lines false c true t e q h = rw q (sign_out-leaves t.menu c h)
    show_session-lines false c false t e q h = rw q h

    show_session-dot :
        (b d : Bool) (t : TrayMenu api)
        → t.last_signed_in ≡ d
        → t.icon ≡ dot_of d
        → (show_session api b t).icon ≡ dot_of b
    show_session-dot true true t q h = rw q h
    show_session-dot true false t q h = rw q refl
    show_session-dot false true t q h = rw q refl
    show_session-dot false false t q h = rw q h

    show_session-IsConsistent :
        (b : Bool) (t : TrayMenu api) → IsConsistent t → IsConsistent (show_session api b t)
    show_session-IsConsistent true t h = record {
      lines = show_session-lines true t.user_shown t.last_signed_in t refl refl h.lines;
      dot = show_session-dot true t.last_signed_in t refl h.dot;
    }
    show_session-IsConsistent false t h = record {
      lines = show_session-lines false t.user_shown t.last_signed_in t refl refl h.lines;
      dot = show_session-dot false t.last_signed_in t refl h.dot;
    }

    pub refresh_tray-IsConsistent :
        (l : Look) (t : TrayMenu api) → IsConsistent t → IsConsistent (refresh_tray api l t)
    unfolding refresh_tray
    refresh_tray-IsConsistent l t h = show_session-IsConsistent (not l.enabled) _ (
        show_user-IsConsistent (is_some l.user_label) (set_item api l t)
          (record { lines = h.lines; dot = h.dot }))
