-- ===== src/Tg/Parameters.antt =====
-- tg2sip/tg.cpp: `Client::init_lib_parameters` and `Client::init_proxy`, and the TDLib objects that
-- they make.
use tg2sip_webrtc.Prelude.{Bool, true, false, Text, ℤ, [], if◌then◌else◌}
use tg2sip_webrtc.Settings.{Settings}

-- `td_api::setTdlibParameters`, with the fields that the source sets.
pub record TdlibParameters : Type 0 where
  pub use_test_dc : Bool
  pub api_id : ℤ
  pub api_hash : Text
  pub database_directory : Text
  pub system_language_code : Text
  pub device_model : Text
  pub system_version : Text
  pub application_version : Text
  pub use_file_database : Bool
  pub use_chat_info_database : Bool
  pub use_message_database : Bool
  pub use_secret_chats : Bool

-- `td_api::proxy` of the type `proxyTypeSocks5`.
pub record SocksProxy : Type 0 where
  pub server : Text
  pub port : ℤ
  pub username : Text
  pub password : Text

-- `td_api::addProxy` and `td_api::disableProxy`.
pub data ProxyFunction : Type 0 where
  add_proxy : (proxy : SocksProxy) (enable : Bool) (comment : Text) → ProxyFunction
  disable_proxy : ProxyFunction

unfoldable pub init_lib_parameters : Settings → TdlibParameters
init_lib_parameters settings = record {
  use_test_dc = false;
  api_id = settings.api_id;
  api_hash = settings.api_hash;
  database_directory = settings.db_folder;
  system_language_code = settings.system_language_code;
  device_model = settings.device_model;
  system_version = settings.system_version;
  application_version = settings.application_version;
  use_file_database = false;
  use_chat_info_database = true;
  use_message_database = false;
  use_secret_chats = false;
}

unfoldable pub init_proxy : Settings → ProxyFunction
init_proxy settings =
    if settings.proxy_enabled
    then add_proxy
        (record {
          server = settings.proxy_address;
          port = settings.proxy_port;
          username = settings.proxy_username;
          password = settings.proxy_password;
        })
        true []
    else disable_proxy
