-- ===== src/GenDb/Program.antt =====
-- tg2sip/gen_db.cpp: `main`.
use tg2sip_webrtc.Prelude.{
  ◌≡◌, refl, Bool, true, false, not, none, some, List, Text, if◌then◌else◌, Option-cases, inl, inr,
  arith,
}
use tg2sip_webrtc.Utils.{resolve_config_path}
use tg2sip_webrtc.Settings.{IniReader, load, is_loaded}
use tg2sip_webrtc.GenDb.{Response, AuthRun, new_client, auth}

-- The program complains of the file and returns 1, or ends as the sign-on ends.
pub data Ended : Type 0 where
  exits_unloaded : (path : Text) → Ended
  signed_on : AuthRun → Ended

-- `main` for the arguments behind the program's name. Settings that could not be read are not loaded.
unfoldable pub main :
    (system_file_exists : Bool) → (Text → IniReader) → List Text → List Text → List Response → Ended
main system_file_exists reader arguments words responses =
    let path = resolve_config_path arguments system_file_exists in
    elim (load (reader path)) [
      | none ↦ exits_unloaded path
      | some settings ↦
          if not settings.is_loaded
          then exits_unloaded path
          else signed_on (auth settings responses (new_client words))
    ]

abbrev has_signed_on : Ended → Bool
has_signed_on (exits_unloaded path) = false
has_signed_on (signed_on r) = true

-- A sign-on is begun exactly if the settings are loaded.
pub main-signs_on :
    (system_file_exists : Bool) (reader : Text → IniReader) (arguments words : List Text)
    (responses : List Response)
    → has_signed_on (main system_file_exists reader arguments words responses)
      ≡ is_loaded (load (reader (resolve_config_path arguments system_file_exists)))
unfolding main is_loaded
main-signs_on system_file_exists reader arguments words responses =
    elim (Option-cases (load (reader (resolve_config_path arguments system_file_exists)))) [
      | inl unread ↦ rw (unread, main, is_loaded) refl
      | inr (settings, loaded) ↦ rw (loaded, main, is_loaded) (ground arith)
    ]
