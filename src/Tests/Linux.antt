-- ===== src/Tests/Linux.antt =====
-- Runs of the rows of a Linux host.
use klaayguard.Prelude.{
  ℕ, ◌≡◌, refl, subst, sym, Bool-cases, inl, inr, true, false, Option, none, some, flat_map,
  if◌then◌else◌,
}
use klaayguard.Text.{Text, codes, eq_text, one_of}
use klaayguard.Text.Laws.{eq_text_iff}
use klaayguard.Text.Utf8.{encode_utf8}
use klaayguard.Json.{Value}
use klaayguard.Environment.{Env}
use klaayguard.ScreenLock.Silent.{silent_verdict}
use klaayguard.ScreenLock.Parse.{detect_desktop}
use klaayguard.LinuxHost.{
  LinuxHost, binary_on_path, collect_screenlock_linux, collect_disk_encryption,
}
use klaayguard.Spawn.{appimage_child_env_vars}
use klaayguard.LinuxHost.Clean.{outside, SameOutside, rows_without_bundle}
use klaayguard.LinuxHost.Silent.{collect_screenlock_linux-silent}

abbrev no_float : Text → Option ℕ
no_float s = none

-- an XFCE desktop where only light-locker is installed, and nothing answers
abbrev mute_xfce : LinuxHost
mute_xfce = record {
  env = λ name.
      if eq_text name (codes "XDG_CURRENT_DESKTOP")
      then some (codes "XFCE")
      else if eq_text name (codes "PATH")
      then some (codes "/usr/local/bin:/usr/bin")
      else none;
  config_dir = some (codes "/home/ann/.config");
  home_dir = some (codes "/home/ann");
  read_to_string = λ path. none;
  is_file = λ path. eq_text path (codes "/usr/bin/light-locker");
  output = λ c e. none;
}

light_locker_found : binary_on_path mute_xfce (codes "light-locker") ≡ true
unfolding eq_text klaayguard.Text.split_by klaayguard.Text.ends_with
light_locker_found = refl

collect_screenlock_linux-silent_example :
    (collect_screenlock_linux mute_xfce no_float).enabled
    ≡ silent_verdict
        (binary_on_path mute_xfce (codes "xfce4-screensaver"))
        (binary_on_path mute_xfce (codes "light-locker"))
        (detect_desktop (mute_xfce.env (codes "XDG_CURRENT_DESKTOP")))
collect_screenlock_linux-silent_example =
    collect_screenlock_linux-silent mute_xfce no_float
      (record { no_success = λ c e. refl; no_file = λ path. refl })

-- the environment of an AppImage, with this LD_LIBRARY_PATH
abbrev mounted_with : Text → Env
mounted_with libraries name =
    if eq_text name (codes "LD_LIBRARY_PATH")
    then some libraries
    else if eq_text name (codes "APPDIR")
    then some (codes "/tmp/.mount_Klaay")
    else if eq_text name (codes "XDG_CURRENT_DESKTOP")
    then some (codes "MATE")
    else none

abbrev bundled_libraries : Env
bundled_libraries = mounted_with (codes "/tmp/.mount_Klaay/usr/lib:/opt/lib")

abbrev own_libraries : Env
own_libraries = mounted_with (codes "/opt/lib")

same_paths :
    (name : Text)
    → outside (codes "/tmp/.mount_Klaay") (bundled_libraries name)
      ≡ outside (codes "/tmp/.mount_Klaay") (own_libraries name)
unfolding eq_text klaayguard.Text.split_by klaayguard.Text.starts_with klaayguard.Text.trim_end_by
same_paths name = elim (Bool-cases (eq_text name (codes "LD_LIBRARY_PATH"))) [
  | inl e ↦ rw e refl
  | inr e ↦ rw e refl
]

is_cleaned :
    (name : Text)
    → eq_text name (codes "LD_LIBRARY_PATH") ≡ true
    → one_of name appimage_child_env_vars ≡ true
is_cleaned name e =
    subst (λ n. one_of n appimage_child_env_vars ≡ true)
      (sym ((eq_text_iff name (codes "LD_LIBRARY_PATH")).0 e)) (unfold eq_text in refl)

same_others :
    (name : Text)
    → one_of name appimage_child_env_vars ≡ false
    → bundled_libraries name ≡ own_libraries name
same_others name h = elim (Bool-cases (eq_text name (codes "LD_LIBRARY_PATH"))) [
  | inl e ↦ absurd (cc (is_cleaned name e, h))
  | inr e ↦ rw e refl
]

differ_inside : SameOutside (codes "/tmp/.mount_Klaay") bundled_libraries own_libraries
unfolding eq_text
differ_inside = record {
  mount = refl;
  mount' = refl;
  in_image = refl;
  paths = λ name c. same_paths name;
  others = same_others;
}

-- A program that loads the bundled libraries answers with a default.
abbrev answer : Option Text → Text
answer none = codes "false"
answer (some path) = if eq_text path (codes "/opt/lib") then codes "true" else codes "false"

abbrev bundled : LinuxHost
bundled = record mute_xfce {
  env = bundled_libraries;
  is_file = λ path. false;
  output = λ c e. some (record {
    success = true;
    stdout = flat_map encode_utf8 (answer (e (codes "LD_LIBRARY_PATH")));
  });
}

abbrev no_tree : Text → Option Value
no_tree s = none

abbrev unbundled : LinuxHost
unbundled = record bundled { env = own_libraries }

rows_without_bundle_example :
    (collect_screenlock_linux bundled no_float ≡ collect_screenlock_linux unbundled no_float)
    × (collect_disk_encryption bundled no_tree ≡ collect_disk_encryption unbundled no_tree)
rows_without_bundle_example =
    rows_without_bundle bundled own_libraries (codes "/tmp/.mount_Klaay") differ_inside
      (λ name dir l k. refl) no_float no_tree
