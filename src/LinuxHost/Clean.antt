-- ===== src/LinuxHost/Clean.antt =====
-- src-tauri/src/lib.rs: the Linux rows of an agent that runs from an AppImage.
use klaayguard.Prelude.{
  ℕ, ◌≡◌, refl, ap, ◌∙◌, sym, inl, inr, Bool, true, false, not, List, [], ◌∷◌, Option, none, some,
  filter, any, ◌||◌, and_then, unwrap_or, keep_if, is_empty, Bool-cases,
}
use klaayguard.Text.{Text, codes, eq_text, split, trim_end_matches, one_of}
use klaayguard.Environment.{Env}
use klaayguard.Spawn.{
  keeps, kept_or_none, strip_appimage_paths, stripped, sanitized, apply_appimage_sanitization,
  appimage_child_env_vars,
}
use klaayguard.Json.{Value}
use klaayguard.ScreenLock.Parse.{Desktop, gnome, kde, hyprland, cinnamon, mate, xfce, other}
use klaayguard.ScreenLock.Linux.{Host, desktop_row, collect_screenlock_xfce, collect_screenlock}
use klaayguard.Disk.Rows.{build_disk_encryption_rows}
use klaayguard.LinuxHost.{
  Output, from_utf8, LinuxHost, path_join, printed, installed, binary_on_path, read_autostart_entry,
  in_config, desktop_host, collect_screenlock_linux, collect_disk_encryption,
}

-- the entries of a variable that are neither empty nor in the mount of the AppImage
abbrev pub outside : Text → Option Text → List Text
outside appdir none = []
outside appdir (some value) = filter (keeps (trim_end_matches b'/' appdir)) (split b':' value)

-- Two environments of agents in AppImages: they differ in the bundled entries of the twelve variables alone.
pub record SameOutside (appdir : Text) (env env' : Env) : Type 0 where
  pub mount : env (codes "APPDIR") ≡ some appdir
  pub mount' : env' (codes "APPDIR") ≡ some appdir
  pub in_image : is_empty appdir ≡ false
  pub paths :
      (name : Text)
      → one_of name appimage_child_env_vars ≡ true
      → outside appdir (env name) ≡ outside appdir (env' name)
  pub others : (name : Text) → one_of name appimage_child_env_vars ≡ false → env name ≡ env' name

stripped-outside :
    (appdir : Text) (o : Option Text) → stripped appdir o ≡ kept_or_none (outside appdir o)
unfolding strip_appimage_paths
stripped-outside appdir none = refl
stripped-outside appdir (some value) = refl

module _ (appdir : Text) (env env' : Env) (same : SameOutside appdir env env') where
  sanitized-same :
      (name : Text) → sanitized (some appdir) env name ≡ sanitized (some appdir) env' name
  sanitized-same name = elim (Bool-cases (one_of name appimage_child_env_vars)) [
    | inl e ↦ rw e (
        stripped-outside appdir (env name)
        ∙ (ap kept_or_none (same.paths name e) ∙ sym (stripped-outside appdir (env' name))))
    | inr e ↦ rw e (same.others name e)
  ]

  mounted : (o : Option Text) → o ≡ some appdir → keep_if (λ s. not (is_empty s)) o ≡ some appdir
  mounted o q = rw (q, same.in_image) refl

  children-same :
      (name : Text) → apply_appimage_sanitization env name ≡ apply_appimage_sanitization env' name
  unfolding apply_appimage_sanitization
  children-same name =
      ap (λ o. sanitized o env name) (mounted _ same.mount)
      ∙ (sanitized-same name ∙ ap (λ o. sanitized o env' name) (sym (mounted _ same.mount')))

any-filter :
    (p q : Text → Bool) (xs : List Text)
    → ((x : Text) → q x ≡ false → p x ≡ false)
    → any p xs ≡ any p (filter q xs)
any-filter p q [] h = refl
any-filter p q (x ∷ xs) h = elim (Bool-cases (q x)) [
  | inl e ↦ rw e (ap (λ b. p x || b) (any-filter p q xs h))
  | inr e ↦ rw (e, h x e) (any-filter p q xs h)
]

-- the programs that are looked up on the PATH
abbrev pub lockers : List Text
lockers = codes "xfce4-screensaver" ∷ codes "light-locker" ∷ []

-- A row asks for no other program.
row-lockers :
    (a : Host) (p : Text → Bool) (round_minutes : Text → Option ℕ) (d : Desktop)
    → a.binary_on_path (codes "xfce4-screensaver") ≡ p (codes "xfce4-screensaver")
    → a.binary_on_path (codes "light-locker") ≡ p (codes "light-locker")
    → desktop_row a round_minutes d ≡ desktop_row (record a { binary_on_path = p }) round_minutes d
unfolding collect_screenlock_xfce
row-lockers a p round_minutes xfce x l = rw (x, l) refl
row-lockers a p round_minutes gnome x l = refl
row-lockers a p round_minutes kde x l = refl
row-lockers a p round_minutes hyprland x l = refl
row-lockers a p round_minutes cinnamon x l = refl
row-lockers a p round_minutes mate x l = refl
row-lockers a p round_minutes other x l = refl

module _ (h : LinuxHost) (env' : Env) (appdir : Text) (same : SameOutside appdir h.env env')
    (none_bundled : (name dir : Text)
      → one_of name lockers ≡ true
      → keeps (trim_end_matches b'/' appdir) dir ≡ false
      → h.is_file (path_join dir name) ≡ false) where
  -- the same host, seen by the other agent
  abbrev pub elsewhere : LinuxHost
  elsewhere = record h { env = env' }

  printed-same :
      (program : Text) (args : List Text) → printed h program args ≡ printed elsewhere program args
  printed-same program args =
      ap
        (λ (e : Env).
          and_then
            (keep_if (λ (o : Output). o.success)
              (h.output (record { program = program; args = args }) e))
            (λ o. from_utf8 o.stdout))
        (λ i name. children-same appdir h.env env' same name i)

  installed-outside :
      (name : Text) (o : Option Text)
      → one_of name lockers ≡ true
      → installed h name o ≡ any (λ d. h.is_file (path_join d name)) (outside appdir o)
  installed-outside name none l = refl
  installed-outside name (some path) l =
      any-filter _ _ (split b':' path) (λ dir k. none_bundled name dir l k)

  path-same :
      (name : Text)
      → one_of name lockers ≡ true
      → binary_on_path h name ≡ binary_on_path elsewhere name
  unfolding eq_text
  path-same name l =
      installed-outside name (h.env (codes "PATH")) l
      ∙ (ap (λ ds. any (λ d. h.is_file (path_join d name)) ds) (same.paths (codes "PATH") refl)
          ∙ sym (installed-outside name (env' (codes "PATH")) l))

  desktop-same : h.env (codes "XDG_CURRENT_DESKTOP") ≡ env' (codes "XDG_CURRENT_DESKTOP")
  unfolding eq_text
  desktop-same = same.others (codes "XDG_CURRENT_DESKTOP") refl

  abbrev seen : Host
  seen = record (desktop_host h) { binary_on_path = binary_on_path elsewhere }

  desktop_host-same : seen ≡ desktop_host elsewhere
  unfolding desktop_host
  desktop_host-same i = record {
    xdg_current_desktop = desktop-same i;
    gsettings_get =
        λ schema key. printed-same (codes "gsettings") (codes "get" ∷ schema ∷ key ∷ []) i;
    xfconf_get = λ channel property.
        printed-same (codes "xfconf-query") (codes "-c" ∷ channel ∷ codes "-p" ∷ property ∷ []) i;
    xset = printed-same (codes "xset") (codes "q" ∷ []) i;
    binary_on_path = binary_on_path elsewhere;
    read_autostart_entry = read_autostart_entry h;
    system_kscreenlockerrc = h.read_to_string (codes "/etc/xdg/kscreenlockerrc");
    user_kscreenlockerrc = in_config h (codes "kscreenlockerrc");
    hypridle_conf = in_config h (codes "hypr/hypridle.conf");
  }

  xfce4 :
      (desktop_host h).binary_on_path (codes "xfce4-screensaver")
      ≡ binary_on_path elsewhere (codes "xfce4-screensaver")
  unfolding desktop_host eq_text
  xfce4 = path-same (codes "xfce4-screensaver") refl

  light :
      (desktop_host h).binary_on_path (codes "light-locker")
      ≡ binary_on_path elsewhere (codes "light-locker")
  unfolding desktop_host eq_text
  light = path-same (codes "light-locker") refl

  -- What an AppImage adds to the environment does not reach the rows: two agents on a host, both in an AppImage that is
  -- mounted at the same place, whose environments differ only in the bundled entries of the twelve variables that are
  -- cleaned, report the same screen lock row and the same disk encryption rows, if no bundled or empty entry of the
  -- PATH holds one of the two screen lockers that are looked up there.
  pub rows_without_bundle :
      (round_minutes : Text → Option ℕ) (from_str : Text → Option Value)
      → (collect_screenlock_linux h round_minutes
          ≡ collect_screenlock_linux elsewhere round_minutes)
        × (collect_disk_encryption h from_str ≡ collect_disk_encryption elsewhere from_str)
  unfolding collect_disk_encryption collect_screenlock
  rows_without_bundle round_minutes from_str = (
    row-lockers (desktop_host h) (binary_on_path elsewhere) round_minutes _ xfce4 light
        ∙ ap (λ d. collect_screenlock d round_minutes) desktop_host-same,
    ap
        (λ t.
          build_disk_encryption_rows (and_then t from_str)
            (unwrap_or (h.read_to_string (codes "/proc/mounts")) []) h.home_dir)
        (printed-same (codes "lsblk") (
          codes "-J"
          ∷ codes "-o"
          ∷ codes "NAME,KNAME,TYPE,FSTYPE,MOUNTPOINT,MOUNTPOINTS,PKNAME"
          ∷ [])),
  )
