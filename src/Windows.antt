-- ===== src/Windows.antt =====
-- src-tauri/src/lib.rs, the Windows screen lock: the power path, the screen saver path, and the row
-- that combines them. The text of `detail` is left out.
use klaayguard.Prelude.{
  ℕ, ◌+◌, ◌-◌, ◌^◌, Bool, true, false, not, ◌&&◌, ◌||◌, List, [], ◌∷◌, ◌++◌, Option, none, some,
  ltb, leb, ◌==◌, if◌then◌else◌, any, filter_map, is_none, is_empty, unwrap_or, and_then, map_some,
  keep_if, filter, min, max,
}
use klaayguard.Text.{Text, codes, trim, eq_text, parse_u64, u64_max}
use klaayguard.ScreenLock.{Row, Tri, affirmed, denied, unknown, screenlock_row}
mod Inputs
pub mod Guid
pub mod Reader
pub mod Dword
pub mod Evidence
pub mod Printed
pub mod Power
pub mod PowerVerdict
pub mod Combined
unfoldable pub use Inputs.*

-- the `source` of a verdict
pub data Source : Type 0 where
  power_policy user_policy user no_source : Source

abbrev pub source_text : Source → Text
source_text power_policy = codes "power_policy"
source_text user_policy = codes "user_policy"
source_text user = codes "user"
source_text no_source = codes "none"

pub record LockVerdict : Type 0 where
  pub locks : Option Bool
  pub delay_seconds : Option ℕ
  pub source : Source

-- One power source: mains or battery.
pub record PowerSource : Type 0 where
  pub lock : Option Bool
  pub standby : Option ℕ
  pub hibernate : Option ℕ
  pub display_off : Option ℕ

-- Which power states the firmware offers.
pub record States : Type 0 where
  pub standby_ok : Bool
  pub hibernate_ok : Bool
  pub s0ix : Bool

abbrev pub candidates : States → PowerSource → List (Option ℕ)
candidates st src =
    (if st.standby_ok || st.s0ix then src.standby ∷ [] else [])
    ++ ((if st.hibernate_ok then src.hibernate ∷ [] else [])
        ++ (if st.s0ix then src.display_off ∷ [] else []))

-- `.into_iter().flatten().filter(|t| *t > 0).min()`
abbrev pub sooner : Option ℕ → Option ℕ → Option ℕ
sooner none best = best
sooner (some t) none = if ltb 0 t then some t else none
sooner (some t) (some b) = if ltb 0 t then some (min t b) else some b

unfoldable pub soonest : List (Option ℕ) → Option ℕ
soonest [] = none
soonest (t ∷ ts) = sooner t (soonest ts)

-- `.into_iter().max()`
abbrev pub later : ℕ → Option ℕ → Option ℕ
later t none = some t
later t (some b) = some (max t b)

unfoldable pub maximum : List ℕ → Option ℕ
maximum [] = none
maximum (t ∷ ts) = later t (maximum ts)

abbrev pub verdict : Option Bool → Option ℕ → LockVerdict
verdict locks delay = record { locks = locks; delay_seconds = delay; source = power_policy }

abbrev pub unreadable : LockVerdict
unreadable = record { locks = none; delay_seconds = none; source = no_source }

abbrev pub is_off : Option Bool → Bool
is_off (some false) = true
is_off _ = false

-- the loop over the power sources, with the delays of those judged so far
unfoldable pub judge : States → List PowerSource → List ℕ → LockVerdict
judge st [] worst = verdict (some true) (maximum worst)
judge st (src ∷ rest) worst =
    let next = λ (secs : ℕ). judge st rest (worst ++ (secs ∷ [])) in
    if is_off src.lock then verdict (some false) none else elim (soonest (candidates st src)) [
      | some secs ↦ next secs
      | none ↦ verdict (some false) (some 0)
    ]

abbrev pub mains : PowerLockValues → PowerSource
mains p = record {
  lock = p.console_lock_ac;
  standby = p.standby_ac_secs;
  hibernate = p.hibernate_ac_secs;
  display_off = p.display_off_ac_secs;
}

abbrev pub battery : PowerLockValues → PowerSource
battery p = record {
  lock = p.console_lock_dc;
  standby = p.standby_dc_secs;
  hibernate = p.hibernate_dc_secs;
  display_off = p.display_off_dc_secs;
}

abbrev pub is_unread : States → PowerSource → Bool
is_unread st src = is_none src.lock || any is_none (candidates st src)

-- behind the check of `has_battery`
abbrev pub judge_readable : States → List PowerSource → LockVerdict
judge_readable st sources = if any (is_unread st) sources then unreadable else judge st sources []

abbrev pub judge_power : States → PowerLockValues → LockVerdict
judge_power st p =
    if not st.standby_ok && (not st.hibernate_ok && not st.s0ix)
    then verdict (some false) none
    else elim p.has_battery [
      | none ↦ unreadable
      | some true ↦ judge_readable st (mains p ∷ battery p ∷ [])
      | some false ↦ judge_readable st (mains p ∷ [])
    ]

abbrev pub states : PowerLockValues → Option States
states p = and_then p.standby_available (λ standby. and_then p.hibernate_available (λ hibernate.
    map_some (λ s0ix. record { standby_ok = standby; hibernate_ok = hibernate; s0ix = s0ix })
      p.modern_standby))

unfoldable pub power_lock_verdict : PowerLockValues → LockVerdict
unfolding judge soonest maximum
power_lock_verdict p = elim (states p) [ none ↦ unreadable | some st ↦ judge_power st p ]

pub record Sourced (A : Type 0) : Type 0 where
  pub value : Option A
  pub source : Source

module _ {A : Type 0} (field : ScreenSaverValues → Option Text)
    (parse : Option Text → Option A) where
  unfoldable pub first_set : List (Source × ScreenSaverValues) → Sourced A
  first_set [] = record { value = none; source = no_source }
  first_set ((source, values) ∷ ranked) =
      let rest = first_set ranked in
      elim (field values) [
        | none ↦ rest
        | some raw ↦ record { value = parse (some raw); source = source }
      ]

abbrev rank : Source → ℕ
rank user_policy = 0
rank user = 1
rank _ = 2

-- `min_by_key`: the first of the least
abbrev better : Source → Source → Source
better a b = if leb (rank a) (rank b) then a else b

abbrev saver_verdict : Source → Option Bool → Option ℕ → LockVerdict
saver_verdict source locks delay = record { locks = locks; delay_seconds = delay; source = source }

-- the last `match`, on the values of active, secure and timeout
abbrev saver_match : Source → Option Bool → Option Bool → Option ℕ → Option Text → LockVerdict
saver_match source (some true) (some true) (some t) none =
    saver_verdict source (some false) (some t)
saver_match source (some true) (some true) (some t) (some exe) =
    saver_verdict source (some true) (some t)
saver_match source active secure timeout exe = saver_verdict source none timeout

abbrev is_zero : Option ℕ → Bool
is_zero none = false
is_zero (some t) = t == 0

abbrev is_no_source : Source → Bool
is_no_source no_source = true
is_no_source _ = false

abbrev pub saver_decision :
    Source → Option Bool → Option Bool → Option ℕ → Option Text → LockVerdict
saver_decision source active secure timeout exe =
    if is_no_source source
    then record { locks = some false; delay_seconds = none; source = no_source }
    else if is_off active || is_off secure
    then saver_verdict source (some false) timeout
    else if is_zero timeout
    then saver_verdict source (some false) (some 0)
    else saver_match source active secure timeout exe

unfoldable pub screensaver_lock_verdict : WindowsScreenLockInputs → LockVerdict
unfolding first_set
screensaver_lock_verdict inputs =
    let ranked = (user_policy, inputs.user_policy) ∷ (user, inputs.user_preference) ∷ [] in
    let active = first_set (λ v. v.active) parse_reg_sz_bool ranked in
    let secure = first_set (λ v. v.secure) parse_reg_sz_bool ranked in
    let timeout = first_set (λ v. v.timeout_seconds) parse_reg_sz_u64 ranked in
    let exe = first_set (λ v. v.exe) parse_reg_sz_path ranked in
    let source = better active.source (better secure.source (better timeout.source exe.source)) in
    saver_decision source active.value secure.value timeout.value exe.value

abbrev pub is_locking : LockVerdict → Bool
is_locking m = elim m.locks [ some true ↦ true | _ ↦ false ]

-- `m.delay_seconds.unwrap_or(u64::MAX)`
abbrev pub lock_delay : LockVerdict → ℕ
lock_delay m = unwrap_or m.delay_seconds u64_max

-- `min_by_key` over the mechanisms: the first of the least
abbrev sooner_of : LockVerdict → Option LockVerdict → Option LockVerdict
sooner_of m none = some m
sooner_of m (some b) = if leb (lock_delay m) (lock_delay b) then some m else some b

unfoldable pub soonest_lock : List LockVerdict → Option LockVerdict
soonest_lock [] = none
soonest_lock (m ∷ ms) = sooner_of m (soonest_lock ms)

abbrev pub windows_row : Tri → Option ℕ → Source → Row
windows_row enabled delay source =
    screenlock_row (codes "windows") enabled delay (source_text source)

-- the row behind the inactivity limit
unfoldable pub combine : LockVerdict → LockVerdict → Row
unfolding soonest_lock
combine saver power = elim (soonest_lock (filter is_locking (saver ∷ power ∷ []))) [
  | some m ↦ windows_row affirmed m.delay_seconds m.source
  | none ↦
      if is_none saver.locks
      then windows_row unknown none saver.source
      else if is_none power.locks
      then windows_row unknown none power.source
      else if is_off saver.locks
      then windows_row denied saver.delay_seconds saver.source
      else if is_off power.locks
      then windows_row denied power.delay_seconds power.source
      else windows_row denied saver.delay_seconds saver.source
]

abbrev positive : Option ℕ → Option ℕ
positive = keep_if (λ secs. ltb 0 secs)

-- the machine inactivity limit, where it is set and above zero
unfoldable pub inactivity_limit : WindowsScreenLockInputs → Option ℕ
inactivity_limit inputs = positive (parse_reg_sz_u64 inputs.inactivity_timeout_secs)

unfoldable pub windows_screenlock_row : WindowsScreenLockInputs → Row
windows_screenlock_row inputs = elim (inactivity_limit inputs) [
  | some secs ↦
      screenlock_row (codes "windows") affirmed (some secs) (codes "machine_inactivity_policy")
  | none ↦ combine (screensaver_lock_verdict inputs) (power_lock_verdict inputs.power)
]
