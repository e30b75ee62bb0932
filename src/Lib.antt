-- ===== src/Lib.antt =====
-- KlaayGuard: the device-compliance agent of src-tauri. The agent signs a person in, fetches from
-- the API which checks to run, runs osquery queries and native checks, and posts the rows. This
-- library models that path and the state it keeps, and proves what it promises.
--
-- The parts, all of src-tauri/src/lib.rs unless said otherwise:
--   Prelude, Text, Json: numbers, lists, texts as lists of code points, and `serde_json::Value`.
--   Session: the token and the name of the holder in `AppState`; Session.Race runs the operations
--     of many threads one lock operation at a time.
--   Config: `is_read_only_query`, `platform_matches` and `parse_config_items`, which say what the
--     agent runs of what the API asks for.
--   Http: `send_with_retry`. The loop runs down the list of its delays, so it needs no fuel.
--   Credentials: src-tauri/src/keychain.rs, the keyring and the fallback file, and the names that
--     single_instance.rs and keychain.rs derive from the API base.
--   Device: the identity of the device, `get_device_identity_internal` and what it decides by.
--   ScreenLock: the row for a screen lock; its children are the Linux desktops.
--   Windows: the screen lock of Windows, from the power values and the screen saver values, and in
--     Windows.Reader the collectors over the registry, the power API and PowerShell.
--   Cycle: `run_cycle`, which uses all of the above but the screen locks: their rows reach it, as
--     those of the other native checks do, as the values of `Native`.
--   Label: the label of the holder, and `adopt_unless_rejected`.
--   Posture: the BitLocker rows and the password policy row of Windows.
--   Update: the self update, from the reply of the API to the bytes that are installed, and its
--     schedule.
--   Instance: src-tauri/src/single_instance.rs, the claim of the lock file by many processes.
--   Disk: the disk encryption rows of Linux. The walk over the tree of lsblk runs on fuel, the depth of
--     the tree, which is enough.
--   AutoUpdate: the automatic update row of Linux.
--   Installer: the installation of an update on Linux, macOS and Windows, and in Installer.Whole the
--     whole of an update from the check to the program that is in place.
--   Autostart: the autostart entry of Linux and the Run key of Windows.
--   SignIn: src-tauri/src/sign_in.rs and `open_sign_in`, the sign-in in the browser.
--   LaunchAgent: the LaunchAgent of macOS, its text and its installation.
--   LinuxHost: the commands and the files of a Linux host, and the rows over them.
--   Environment, Spawn: the settings of the environment, and the commands that the agent starts.
--   Background: `spawn_background_loop`, which drives the cycles. A turn is one look of the runtime at the
--     loop; Background.Wakeup runs it beside the threads that acquire a token.
--   Startup: src-tauri/src/main.rs and `run`, the start of the process, with the options of the command
--     line and the claim of the login. The setup closure is the list of what it starts.
--   Tray: the tray menu, and the menu drawn from the state alone. The fuel of a decimal number and that
--     of a replacement in the plist are the number plus one and the length of the text, which are enough.
--   Lifecycle: adopting a token, signing out, and the start of the next process.
--   Tests: runs at concrete inputs.
--
-- State is passed along: a function of the code that writes to `AppState` or to the store is a
-- function that returns the new one, beside its result and the events that it sends to the window.
-- A `u64` is a natural number, with `% 2 ^ 64` where the release build can wrap around. A `char` is
-- its code point. A `HashMap` is an association list, in one of the orders that iteration may take.
--
-- Parameters, since their code is not in the repository: the HTTP client, the keyring crate (with
-- its documented laws), the interval of tokio (likewise), the registry and the power API, SHA-256, HMAC-SHA256 and the random source, semver, the Unicode category of
-- a character, the file system with the steps that fail, osquery, the outputs of the host's commands,
-- and `f64`.
--
-- Not modelled: the drawing of the menu, the windows and the notifications, logging and error reports, the start
-- of the new process after an update, and file permissions. The text for a person in the `detail` of a row is left out,
-- but for the disk encryption rows of Linux.
pub mod Prelude
pub mod Text
pub mod Installer
pub mod Json
pub mod Session
pub mod AutoUpdate
pub mod Autostart
pub mod Background
pub mod Config
pub mod Http
pub mod Credentials
pub mod ScreenLock
pub mod Windows
pub mod Device
pub mod Disk
pub mod Cycle
pub mod Label
pub mod Lifecycle
pub mod SignIn
pub mod LaunchAgent
pub mod Environment
pub mod Spawn
pub mod Posture
pub mod Startup
pub mod Tray
pub mod Update
pub mod Instance
pub mod LinuxHost
pub mod Tests
