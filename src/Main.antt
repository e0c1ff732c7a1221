-- ===== src/Main.antt =====
-- tg2sip/main.cpp: the start of the gateway, and the end of the process.
use tg2sip_webrtc.Prelude.{
  ℕ, Bool, true, false, ◌&&◌, not, Option, none, some, List, [], ◌∷◌, Text, if◌then◌else◌, ◌≡◌,
  refl, arith, ◌==◌, nat_eq, Option-cases, inl, inr,
}
use tg2sip_webrtc.Utils.{resolve_config_path}
use tg2sip_webrtc.Settings.{Settings, IniReader, load, is_loaded}
use tg2sip_webrtc.Logging.{init_logging, init_logging-returns}

-- What the start depends on outside the code: the configuration files as read, whether the
-- system-wide one exists, whether the log file can be opened, whether PJSIP starts the endpoint and
-- the account without an exception, and the value of `is_ready` if it has one within 5 seconds.
pub record Surroundings : Type 0 where
  pub system_file_exists : Bool
  pub reader : Text → IniReader
  pub log_file_opens : Bool
  pub sip_starts : Bool
  pub tg_ready : Option Bool

-- What the process does on its way.
pub data Step : Type 0 where
  complain_config : (path : Text) → Step
  start_logging : Settings → Step
  start_sip : Settings → Step
  start_tg : Settings → Step
  complain_tg : Step
  run_gateway : Settings → Step

-- How it ends: with an exit code, through the terminate handler or a signal, after its steps.
pub data Ended : Type 0 where
  exits : (code : ℕ) → List Step → Ended
  aborts : List Step → Ended

-- `tg_status != ready || !get()`
abbrev tg_failed : Option Bool → Bool
tg_failed none = true
tg_failed (some ready) = not ready

-- `main` from the check of the settings on.
unfoldable start_with : Surroundings → Text → Settings → Ended
unfolding init_logging
start_with s path settings =
    if not settings.is_loaded
    then exits 1 (complain_config path ∷ [])
    else if not (init_logging settings s.log_file_opens).returns
    then aborts (start_logging settings ∷ [])
    else if not s.sip_starts
    then aborts (start_logging settings ∷ start_sip settings ∷ [])
    else if tg_failed s.tg_ready
    then exits 1
        (start_logging settings ∷ start_sip settings ∷ start_tg settings ∷ complain_tg ∷ [])
    else exits 0 (
        start_logging settings ∷ start_sip settings ∷ start_tg settings ∷ run_gateway settings ∷ [])

-- `main` of main.cpp for the arguments behind the program's name, with a gateway whose loop ends by
-- a signal. Settings that could not be read are not loaded.
unfoldable pub main : Surroundings → List Text → Ended
unfolding start_with
main s arguments =
    let path = resolve_config_path arguments s.system_file_exists in
    elim (load (s.reader path)) [
      | none ↦ exits 1 (complain_config path ∷ [])
      | some settings ↦ start_with s path settings
    ]

abbrev pub exits_with : ℕ → Ended → Bool
exits_with code (exits c steps) = c == code
exits_with code (aborts steps) = false

abbrev has_run : List Step → Bool
has_run [] = false
has_run (run_gateway settings ∷ steps) = true
has_run (step ∷ steps) = has_run steps

abbrev pub ran_gateway : Ended → Bool
ran_gateway (exits code steps) = has_run steps
ran_gateway (aborts steps) = has_run steps

-- What the gateway needs to run.
abbrev pub can_run : Surroundings → Text → Bool
can_run s path =
    is_loaded (load (s.reader path))
    && s.log_file_opens
    && s.sip_starts
    && not (tg_failed s.tg_ready)

start_with-runs :
    (s : Surroundings) (path : Text) (settings : Settings)
    → (ran_gateway (start_with s path settings)
        ≡ (settings.is_loaded && s.log_file_opens && s.sip_starts && not (tg_failed s.tg_ready)))
      × (exits_with 0 (start_with s path settings) ≡ ran_gateway (start_with s path settings))
unfolding start_with
start_with-runs s path settings = ground (arith, init_logging-returns settings s.log_file_opens)

-- The gateway runs, and the process ends with the exit code 0, exactly if the settings of the file
-- that the arguments choose are loaded, the log file can be opened, PJSIP starts, and Telegram's
-- authorization is ready within the time.
main-runs :
    (s : Surroundings) (arguments : List Text)
    → (ran_gateway (main s arguments)
        ≡ can_run s (resolve_config_path arguments s.system_file_exists))
      × (exits_with 0 (main s arguments) ≡ ran_gateway (main s arguments))
unfolding main is_loaded
main-runs s arguments =
    let path = resolve_config_path arguments s.system_file_exists in
    elim (Option-cases (load (s.reader path))) [
      | inl unread ↦ rw (unread, main, is_loaded) (refl, refl)
      | inr (settings, loaded) ↦ rw (loaded, main, is_loaded) (start_with-runs s path settings)
    ]
