-- ===== src/Logging.antt =====
-- tg2sip/logging.cpp: the files and levels of the loggers. spdlog, TDLib's log and ntgcalls' logger
-- are called, in this order, with the values below.
mod Tests
use tg2sip_webrtc.Prelude.{
  ℕ, ◌*◌, Bool, true, false, Option, none, some, List, [], ◌∷◌, ◌++◌, Text, text, ◌==◌, nat_eq,
  text_eq, if◌then◌else◌, ◌≡◌, ◌≢◌, refl, arith,
}
use tg2sip_webrtc.Settings.{Settings}

-- `log_folder.back() == '/'` of a string that is not empty.
unfoldable pub ends_in_slash : Text → Bool
ends_in_slash [] = false
ends_in_slash (c ∷ []) = c == b'/'
ends_in_slash (c ∷ d ∷ s) = ends_in_slash (d ∷ s)

-- `LogFilePath`
unfoldable pub log_file_path : Text → Text → Text
unfolding ends_in_slash
log_file_path [] file_name = file_name
log_file_path (c ∷ folder) file_name =
    if ends_in_slash (c ∷ folder)
    then (c ∷ folder) ++ file_name
    else (c ∷ folder) ++ b'/' ∷ file_name

-- `ntg_log_level_enum`; `other_level` is any value that has no name there.
pub data NtgLevel : Type 0 where
  ntg_debug ntg_info ntg_warning ntg_error other_level : NtgLevel

-- `spdlog::level::level_enum` below `critical`.
pub data SpdLevel : Type 0 where
  debug info warn err : SpdLevel

-- `NtgCallsLogCallback`: what the logger `tgcalls` is asked to log, if it is registered.
unfoldable ntg_calls_log_callback : Bool → NtgLevel → Text → Option (SpdLevel × Text)
ntg_calls_log_callback false level message = none
ntg_calls_log_callback true ntg_debug message = some (debug, message)
ntg_calls_log_callback true ntg_warning message = some (warn, message)
ntg_calls_log_callback true ntg_error message = some (err, message)
ntg_calls_log_callback true ntg_info message = some (info, message)
ntg_calls_log_callback true other_level message = some (info, message)

-- The calls that `init_logging` makes. A sink has a level, and a file also its name, the size at
-- which it is rotated and the number of old files.
pub data LogCall : Type 0 where
  console_sink : (level : ℕ) → LogCall
  file_sink : (path : Text) (max_size max_files : ℕ) (level : ℕ) → LogCall
  register_logger : (name : Text) → LogCall
  apply_all_info : LogCall
  complain : LogCall
  set_td_file : (path : Text) → LogCall
  set_td_verbosity : (level : ℕ) → LogCall
  set_level : (name : Text) (level : ℕ) → LogCall
  register_ntg_logger : LogCall

-- The calls made, and whether `init_logging` returned; it does not when a null pointer is followed.
pub record Logged : Type 0 where
  pub calls : List LogCall
  pub returns : Bool

-- The `try` block, if the log file can be opened, and otherwise up to `spdlog_ex` and its handler.
unfoldable make_loggers : Settings → Bool → List LogCall
unfolding log_file_path
make_loggers settings true =
    console_sink settings.console_min_level
    ∷ file_sink (log_file_path settings.log_folder (text "tg2sip.log")) (100 * 1024 * 1024) 1
        settings.file_min_level
    ∷ register_logger (text "core")
    ∷ register_logger (text "pjsip")
    ∷ register_logger (text "tgcalls")
    ∷ apply_all_info
    ∷ []
make_loggers settings false = console_sink settings.console_min_level ∷ complain ∷ []

-- `spdlog::get(name)` finds a logger.
unfoldable is_registered : Text → List LogCall → Bool
is_registered name [] = false
is_registered name (register_logger other ∷ calls) =
    let rest = is_registered name calls in if other == name then true else rest
is_registered name (call ∷ calls) = is_registered name calls

-- The levels of the loggers, of which the first that is not registered is a null pointer.
unfoldable set_levels : List (Text × ℕ) → Logged → Logged
unfolding is_registered
set_levels [] done = record done { calls = done.calls ++ register_ntg_logger ∷ [] }
set_levels ((name, level) ∷ more) done =
    let rest = set_levels more (record done { calls = done.calls ++ set_level name level ∷ [] }) in
    if is_registered name done.calls then rest else record done { returns = false }

-- `file_opens` says that spdlog can open the log file.
unfoldable pub init_logging : Settings → Bool → Logged
unfolding make_loggers set_levels log_file_path
init_logging settings file_opens =
    set_levels
      ((text "core", settings.log_level)
        ∷ (text "pjsip", settings.pjsip_log_level)
        ∷ (text "tgcalls", settings.tgcalls_log_level)
        ∷ [])
      (record {
        calls =
            make_loggers settings file_opens
            ++ set_td_file (log_file_path settings.log_folder (text "tdlib.log"))
              ∷ set_td_verbosity settings.tdlib_log_level
              ∷ [];
        returns = true;
      })

-- `init_logging` returns exactly if the log file can be opened: it catches the exception of a file
-- that cannot be, but then follows a null pointer.
pub init_logging-returns :
    (settings : Settings) (file_opens : Bool)
    → (init_logging settings file_opens).returns ≡ file_opens
unfolding init_logging set_levels make_loggers is_registered
init_logging-returns settings true = refl
init_logging-returns settings false = refl
