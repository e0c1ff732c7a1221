-- ===== src/Logging/Tests.antt =====
-- tg2sip/logging.cpp: runs.
use tg2sip_webrtc.Prelude.{◌≡◌, refl, text, []}
use tg2sip_webrtc.Logging.{log_file_path, ends_in_slash}

log_file_path_runs :
    (log_file_path [] (text "tdlib.log") ≡ text "tdlib.log")
    × (log_file_path (text "/var/log/") (text "tdlib.log") ≡ text "/var/log/tdlib.log")
    × (log_file_path (text "/var/log") (text "tdlib.log") ≡ text "/var/log/tdlib.log")
unfolding log_file_path ends_in_slash
log_file_path_runs = (refl, refl, refl)
