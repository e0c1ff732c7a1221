-- ===== src/Settings.antt =====
-- tg2sip/settings.h and settings.cpp: the settings read from the configuration file. The INI reader
-- is a parameter.
pub mod Load
mod Tests
use tg2sip_webrtc.Prelude.{
  ℕ, ◌^◌, Bool, true, false, ◌||◌, Option, none, some, Text, text, ℤ, pos, negsuc, ltb, leb,
  if◌then◌else◌, to_unsigned, to_int32, ◌==◌, int_eq, text_eq, min, [],
}

-- `INIReader`: `parse_error` is 0, the first bad line, or negative if the file cannot be read; the
-- others look up a section and a name, with a default.
pub record IniReader : Type 0 where
  pub parse_error : ℤ
  pub get_integer : Text → Text → ℤ → ℤ
  pub get_boolean : Text → Text → Bool → Bool
  pub get : Text → Text → Text → Text

pub record Settings : Type 0 where
  pub is_loaded : Bool
  pub console_min_level : ℕ
  pub file_min_level : ℕ
  pub log_level : ℕ
  pub pjsip_log_level : ℕ
  pub pjsip_log_sip_messages : Bool
  pub tgcalls_log_level : ℕ
  pub tdlib_log_level : ℕ
  pub log_folder : Text
  pub sip_port : ℕ
  pub id_uri : Text
  pub callback_uri : Text
  pub public_address : Text
  pub stun_server : Text
  pub raw_pcm : Bool
  pub sip_thread_count : ℕ
  pub sip_port_range : ℕ
  pub api_id : ℤ
  pub api_hash : Text
  pub db_folder : Text
  pub system_language_code : Text
  pub device_model : Text
  pub system_version : Text
  pub application_version : Text
  pub udp_p2p : Bool
  pub udp_reflector : Bool
  pub aec_enabled : Bool
  pub ns_enabled : Bool
  pub agc_enabled : Bool
  pub proxy_enabled : Bool
  pub proxy_address : Text
  pub proxy_port : ℤ
  pub proxy_username : Text
  pub proxy_password : Text
  pub voip_proxy_enabled : Bool
  pub voip_proxy_address : Text
  pub voip_proxy_port : ℕ
  pub voip_proxy_username : Text
  pub voip_proxy_password : Text
  pub extra_wait_time : ℕ
  pub peer_flood_time : ℕ

-- `std::clamp(…, 0, 6)` of an `int`.
pub clamp_level : ℤ → ℕ
clamp_level (pos n) = min n 6
clamp_level (negsuc n) = 0

-- A log level, cast to `int` and clamped.
pub level : IniReader → Text → ℤ → ℕ
unfolding clamp_level
level reader key default = clamp_level (to_int32 (reader.get_integer (text "logging") key default))

-- The values that the constructor reads, with `is_loaded` as given.
pub read : IniReader → Bool → Settings
unfolding level
read reader loaded = record {
  is_loaded = loaded;
  console_min_level = level reader (text "console_min_level") (pos 0);
  file_min_level = level reader (text "file_min_level") (pos 0);
  log_level = level reader (text "core") (pos 2);
  pjsip_log_level = level reader (text "pjsip") (pos 2);
  pjsip_log_sip_messages = reader.get_boolean (text "logging") (text "sip_messages") true;
  tgcalls_log_level = level reader (text "tgcalls") (pos 5);
  tdlib_log_level = level reader (text "tdlib") (pos 3);
  log_folder = reader.get (text "logging") (text "log_folder") (text "");
  sip_port = to_unsigned 32 (reader.get_integer (text "sip") (text "port") (pos 0));
  id_uri = reader.get (text "sip") (text "id_uri") (text "sip:localhost");
  callback_uri = reader.get (text "sip") (text "callback_uri") (text "");
  public_address = reader.get (text "sip") (text "public_address") (text "");
  stun_server = reader.get (text "sip") (text "stun_server") (text "");
  raw_pcm = reader.get_boolean (text "sip") (text "raw_pcm") true;
  sip_thread_count = to_unsigned 32 (reader.get_integer (text "sip") (text "thread_count") (pos 1));
  sip_port_range = to_unsigned 32 (reader.get_integer (text "sip") (text "port_range") (pos 0));
  api_id = to_int32 (reader.get_integer (text "telegram") (text "api_id") (pos 0));
  api_hash = reader.get (text "telegram") (text "api_hash") (text "");
  db_folder = reader.get (text "telegram") (text "database_folder") (text "");
  system_language_code = reader.get (text "telegram") (text "system_language_code") (text "en-US");
  device_model = reader.get (text "telegram") (text "device_model") (text "PC");
  system_version = reader.get (text "telegram") (text "system_version") (text "Linux");
  application_version = reader.get (text "telegram") (text "application_version") (text "1.0");
  udp_p2p = reader.get_boolean (text "telegram") (text "udp_p2p") false;
  udp_reflector = reader.get_boolean (text "telegram") (text "udp_reflector") true;
  aec_enabled = reader.get_boolean (text "telegram") (text "enable_aec") false;
  ns_enabled = reader.get_boolean (text "telegram") (text "enable_ns") false;
  agc_enabled = reader.get_boolean (text "telegram") (text "enable_agc") false;
  proxy_enabled = reader.get_boolean (text "telegram") (text "use_proxy") false;
  proxy_address = reader.get (text "telegram") (text "proxy_address") (text "");
  proxy_port = to_int32 (reader.get_integer (text "telegram") (text "proxy_port") (pos 0));
  proxy_username = reader.get (text "telegram") (text "proxy_username") (text "");
  proxy_password = reader.get (text "telegram") (text "proxy_password") (text "");
  voip_proxy_enabled = reader.get_boolean (text "telegram") (text "use_voip_proxy") false;
  voip_proxy_address = reader.get (text "telegram") (text "voip_proxy_address") (text "");
  voip_proxy_port =
      to_unsigned 16 (reader.get_integer (text "telegram") (text "voip_proxy_port") (pos 0));
  voip_proxy_username = reader.get (text "telegram") (text "voip_proxy_username") (text "");
  voip_proxy_password = reader.get (text "telegram") (text "voip_proxy_password") (text "");
  extra_wait_time =
      to_unsigned 32 (reader.get_integer (text "other") (text "extra_wait_time") (pos 30));
  peer_flood_time =
      to_unsigned 32 (reader.get_integer (text "other") (text "peer_flood_time") (pos 86400));
}

abbrev pub is_negative : ℤ → Bool
is_negative (pos n) = false
is_negative (negsuc n) = true

-- `Settings::Settings`; `none` if the file cannot be read, where the fields but `is_loaded` stay
-- without a value.
pub load : IniReader → Option Settings
load reader =
    if is_negative reader.parse_error
    then none
    else some (
        let values = read reader true in
        if values.api_id == pos 0 || values.api_hash == [] then read reader false else values)

-- What `main` asks of the settings before it uses any of them.
unfoldable pub is_loaded : Option Settings → Bool
is_loaded none = false
is_loaded (some s) = s.is_loaded
