-- ===== src/Tests/Desktop.antt =====
-- Runs of the tray and of the autostart entry.
use klaayguard.Prelude.{
  ℕ, ◌≡◌, refl, true, false, not, ◌++◌, List, [], ◌∷◌, none, some, filter, zero, suc, ◌*◌, ◌/◌,
  map_some, arith,
}
use klaayguard.Text.{Text, codes}
use klaayguard.Session.{AppState}
use klaayguard.Tray.{MenuApi, IsMenuApi, same_item, starting}
use klaayguard.Tray.Consistent.{view, refreshed, draw}
use klaayguard.Tray.Icon.{Image, Color, icon_with_dot}
use klaayguard.Tray.Dotted.{Dotted, icon_with_dot-Dotted}
use klaayguard.Tray.Drawn.{refresh_tray-draw}
use klaayguard.Autostart
use klaayguard.Autostart.{is_reserved, autostart_entry, Process, install_autostart_entry}
use klaayguard.Autostart.Install.{Installed, install_autostart_entry-Installed}
use klaayguard.Tests.Fixtures.{signed_in, signed_out}

-- a menu that is the list of its items
abbrev listed : MenuApi
listed = record {
  Menu = List klaayguard.Tray.Item;
  with_items = λ xs. xs;
  prepend = λ i m. i ∷ m;
  append = λ i m. m ++ (i ∷ []);
  remove = λ i m. filter (λ j. not (same_item i j)) m;
  items = λ m. m;
}

listed-IsMenuApi : IsMenuApi listed
listed-IsMenuApi = record {
  items-with_items = λ xs. refl;
  items-prepend = λ i m. refl;
  items-append = λ i m. refl;
  items-remove = λ i m. refl;
}

-- signed in, signed out, signed in again
abbrev history : List (ℕ × AppState)
history = (1, signed_in) ∷ (2, signed_out) ∷ []

refresh_tray-draw_example :
    view listed (refreshed listed 900 (history ++ ((3, signed_in) ∷ [])) (starting listed))
    ≡ draw 900 3 signed_in
refresh_tray-draw_example = refresh_tray-draw listed listed-IsMenuApi 900 history 3 signed_in

abbrev spaced : Text
spaced = codes "/opt/Klaay Guard/100%"

abbrev pub packaged : Process
packaged = record {
  config_dir = some (codes "/home/ann/.config");
  current_exe = some (codes "/tmp/.mount_Klaay/usr/bin/klaayguard");
  appimage = some (codes "/home/ann/KlaayGuard.AppImage");
  appdir = some (codes "/tmp/.mount_Klaay");
  is_file = λ path. true;
}

abbrev no_faults : Autostart.Faults
no_faults = record {
  read = false;
  create_dir = false;
  write = false;
  partial = none;
  rename = false;
}

abbrev first_login : Autostart.Files
first_login = record { entry = none; tmp = none }

install_autostart_entry-Installed_example :
    Installed no_faults packaged first_login
      (install_autostart_entry no_faults packaged first_login)
install_autostart_entry-Installed_example =
    install_autostart_entry-Installed no_faults packaged first_login

-- a clear icon of four by four pixels, and a red dot of one pixel around its centre
abbrev blank : ℕ → List ℕ
blank zero = []
blank (suc n) = 0 ∷ blank n

abbrev clear : Image
clear = record { width = 4; height = 4; rgba = blank 64 }

abbrev red : Color
red = record { red = 231; green = 76; blue = 60; alpha = 255 }

abbrev third : ℕ → ℕ
third n = n * 3 / 10

-- the rows of the icon, with the red of each pixel
abbrev reds : List ℕ → List ℕ
reds (a ∷ b ∷ c ∷ d ∷ s) = a ∷ reds s
reds _ = []

dot_in_the_corner :
    map_some (λ i. reds i.rgba) (icon_with_dot third clear red)
    ≡ some (0 ∷ 0 ∷ 0 ∷ 0 ∷ 0 ∷ 0 ∷ 231 ∷ 0 ∷ 0 ∷ 231 ∷ 231 ∷ 231 ∷ 0 ∷ 0 ∷ 231 ∷ 0 ∷ [])
unfolding icon_with_dot
dot_in_the_corner = refl

icon_with_dot-Dotted_example : Dotted third clear red
icon_with_dot-Dotted_example =
    icon_with_dot-Dotted third clear red (omega arith) (omega arith) refl (λ n h. omega arith)
