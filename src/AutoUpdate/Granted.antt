-- ===== src/AutoUpdate/Granted.antt =====
-- src-tauri/src/lib.rs: what a "yes" of the automatic update row rests on.
use klaayguard.Prelude.{
  ◌≡◌, refl, sym, ◌⊎◌, inl, inr, Bool, true, false, ◌||◌, Option, none, some, Bool-cases,
}
use klaayguard.Text.{Text, codes, is_text}
use klaayguard.ScreenLock.{affirmed, denied, unknown}
use klaayguard.AutoUpdate.{
  UpdateRow, is_off, auto_update_row_apt, auto_update_row_dnf, Host, parse_apt_config_shell,
  lookup_last, systemctl_is_enabled, apt_answer, is_enabled, dnf_apply, collect_auto_update,
}

module _ (h : Host) where
  -- apt answered, unattended-upgrades is there, and neither a setting nor the timer turns it off
  pub record ByApt : Type 0 where
    pub out : Text
    pub answered : h.apt_config ≡ some out
    pub installed : h.unattended_upgrade_exists ≡ true
    pub enabled : is_text (lookup_last (codes "E") (parse_apt_config_shell out)) (codes "0") ≡ false
    pub unattended : is_off (lookup_last (codes "U") (parse_apt_config_shell out)) ≡ false
    pub runs :
        (is_text (systemctl_is_enabled h (codes "apt-daily-upgrade.timer")) (codes "disabled")
          || is_text (systemctl_is_enabled h (codes "apt-daily-upgrade.timer")) (codes "masked"))
        ≡ false

  -- the timer that installs is enabled, or another is and the settings say that it installs
  abbrev pub ByDnf : Type 0
  ByDnf =
      (is_enabled h (codes "dnf-automatic-install.timer") ≡ true)
      ⊎ (((is_enabled h (codes "dnf5-automatic.timer")
              || is_enabled h (codes "dnf-automatic.timer"))
            ≡ true)
          × (dnf_apply h ≡ some true))

  -- What each verdict rests on: a "no" has an answer of apt, or a systemctl for which the timer that
  -- installs is not enabled.
  abbrev pub Granted : UpdateRow → Type 0
  Granted row = elim row.enabled [
    | affirmed ↦ ByApt ⊎ ByDnf
    | denied ↦
        ((out : Text) × (h.apt_config ≡ some out))
        ⊎ ((h.binary_on_path (codes "systemctl") ≡ true)
            × (is_enabled h (codes "dnf-automatic-install.timer") ≡ false))
    | unknown ↦
        (h.apt_config ≡ none)
        ⊎ (h.binary_on_path (codes "systemctl") ≡ false)
        ⊎ ((h.binary_on_path (codes "dnf5") || h.binary_on_path (codes "dnf")) ≡ false)
  ]

  module _ (out : Text) (q : h.apt_config ≡ some out) (enable unattended timer : Option Text)
      (e : enable ≡ lookup_last (codes "E") (parse_apt_config_shell out))
      (u : unattended ≡ lookup_last (codes "U") (parse_apt_config_shell out))
      (t : timer ≡ systemctl_is_enabled h (codes "apt-daily-upgrade.timer")) where
    row-Granted :
        (installed : Bool)
        → installed ≡ h.unattended_upgrade_exists
        → Granted (auto_update_row_apt enable unattended installed timer)
    unfolding auto_update_row_apt
    row-Granted false n = inl (out, q)
    row-Granted true n = elim (Bool-cases (is_text enable (codes "0"))) [
      | inl b ↦ rw b (inl (out, q))
      | inr b ↦ elim (Bool-cases (is_off unattended)) [
        | inl c ↦ rw (b, c) (inl (out, q))
        | inr c ↦
            elim (Bool-cases (is_text timer (codes "disabled") || is_text timer (codes "masked"))) [
              | inl d ↦ rw (b, c, d) (inl (out, q))
              | inr d ↦
                  rw (b, c, d)
                    (inl (record {
                      out = out;
                      answered = q;
                      installed = sym n;
                      enabled = rw (← e) b;
                      unattended = rw (← u) c;
                      runs = rw (← t) d;
                    }))
            ]
      ]
    ]

  apt-Granted : (o : Option Text) → h.apt_config ≡ o → Granted (apt_answer h o)
  apt-Granted none q = inl q
  apt-Granted (some out) q = row-Granted out q _ _ _ refl refl refl h.unattended_upgrade_exists refl

  dnf-Granted :
      (timer install : Bool) (apply : Option Bool)
      → h.binary_on_path (codes "systemctl") ≡ true
      → timer ≡ (
          is_enabled h (codes "dnf5-automatic.timer") || is_enabled h (codes "dnf-automatic.timer"))
      → install ≡ is_enabled h (codes "dnf-automatic-install.timer")
      → apply ≡ dnf_apply h
      → Granted (auto_update_row_dnf timer install apply)
  unfolding auto_update_row_dnf
  dnf-Granted timer true apply p t i a = inr (inl (sym i))
  dnf-Granted false false apply p t i a = inr (p, sym i)
  dnf-Granted true false (some true) p t i a = inr (inr (sym t, sym a))
  dnf-Granted true false (some false) p t i a = inr (p, sym i)
  dnf-Granted true false none p t i a = inr (p, sym i)

  -- A "yes" of the row has an installer that is on: apt's, with unattended-upgrades installed, its settings
  -- on and its timer not disabled; or dnf's, with the timer that installs enabled, or another timer and a
  -- setting that says to install. A "no" has an answer of apt-config, or a systemctl that does not say that
  -- the timer which installs is enabled.
  pub collect_auto_update-Granted : Granted (collect_auto_update h)
  unfolding collect_auto_update
  collect_auto_update-Granted = elim (Bool-cases (h.binary_on_path (codes "apt-config"))) [
    | inl a ↦ rw a (apt-Granted h.apt_config refl)
    | inr a ↦
        elim (Bool-cases (h.binary_on_path (codes "dnf5") || h.binary_on_path (codes "dnf"))) [
          | inr b ↦ rw (a, b) (inr (inr b))
          | inl b ↦ elim (Bool-cases (h.binary_on_path (codes "systemctl"))) [
            | inr c ↦ rw (a, b, c) (inr (inl c))
            | inl c ↦ rw (a, b, c) (dnf-Granted _ _ _ c refl refl refl)
          ]
        ]
  ]
