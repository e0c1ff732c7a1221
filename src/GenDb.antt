-- ===== src/GenDb.antt =====
-- tg2sip/gen_db.cpp: `TDClient`, which signs an account on and so makes TDLib's database.
pub mod Program
pub mod SignOn
pub mod Order
pub mod Stale
pub mod Same
mod Tests
use tg2sip_webrtc.Prelude.{
  ℕ, ◌+◌, ◌%◌, ◌^◌, Option, none, some, List, [], ◌∷◌, Bool, true, false, Text, if◌then◌else◌, ◌==◌,
  nat_eq, lookup, emplace, erase,
}
use tg2sip_webrtc.Settings.{Settings}
use tg2sip_webrtc.Tg.Parameters.{
  TdlibParameters, SocksProxy, ProxyFunction, add_proxy, disable_proxy,
}

-- `td_api::AuthorizationState`
pub data AuthorizationState : Type 0 where
  ready logging_out closing closed : AuthorizationState
  wait_code wait_registration wait_password : AuthorizationState
  wait_other_device_confirmation : (link : Text) → AuthorizationState
  wait_phone_number wait_premium_purchase wait_email_address wait_email_code : AuthorizationState
  wait_tdlib_parameters : AuthorizationState

-- An object that TDLib sends: the update of the authorization, an error, or any other.
pub data Object : Type 0 where
  authorization_update : AuthorizationState → Object
  error : Object
  other_object : Object

-- `td::Client::Response`
pub record Response : Type 0 where
  pub id : ℕ
  pub object : Option Object

-- The functions that the client sends.
pub data Query : Type 0 where
  check_authentication_code : (code : Text) → Query
  register_user : (first_name last_name : Text) (disable_notification : Bool) → Query
  check_authentication_password : (password : Text) → Query
  set_authentication_phone_number : (phone_number : Text) → Query
  set_proxy : ProxyFunction → Query
  set_tdlib_parameters : TdlibParameters → Query

-- `[](Object) {}`, and the handler of `create_authentication_query_handler` with the id it captured.
pub data Handler : Type 0 where
  ignore : Handler
  authentication : (id : ℕ) → Handler

-- `input` is the words still to be read from `std::cin`; `sent` is what TDLib was sent, the newest
-- first.
pub record TdClient : Type 0 where
  pub sequence_done : Bool
  pub authorization_state : Option AuthorizationState
  pub current_query_id : ℕ
  pub authentication_query_id : ℕ
  pub handlers : List (ℕ × Handler)
  pub input : List Text
  pub sent : List (ℕ × Query)

-- `TDClient::TDClient`
abbrev pub new_client : List Text → TdClient
new_client input = record {
  sequence_done = false;
  authorization_state = none;
  current_query_id = 0;
  authentication_query_id = 0;
  handlers = [];
  input = input;
  sent = [];
}

-- `std::cin >> word` into an empty string, which stays empty at the end of the input.
unfoldable pub read_word : List Text → Text × List Text
read_word [] = ([], [])
read_word (word ∷ words) = (word, words)

unfoldable pub send_query : Query → Handler → TdClient → TdClient
send_query q handler c =
    let id = (c.current_query_id + 1) % 2 ^ 64 in
    record c {
      current_query_id = id;
      handlers = emplace id handler c.handlers;
      sent = (id, q) ∷ c.sent;
    }

abbrev pub create_authentication_query_handler : TdClient → Handler
create_authentication_query_handler c = authentication c.authentication_query_id

-- A word is read, and a function of it is sent.
abbrev pub ask : (Text → Query) → TdClient → TdClient
ask q c =
    let read = read_word c.input in
    send_query (q read.0) (create_authentication_query_handler c) (record c { input = read.1 })

-- The object of `authorizationStateWaitTdlibParameters`'s case.
unfoldable pub proxy_query : Settings → Query
proxy_query settings =
    if settings.proxy_enabled
    then set_proxy (
        add_proxy
          (record {
            server = settings.proxy_address;
            port = settings.proxy_port;
            username = settings.proxy_username;
            password = settings.proxy_password;
          })
          true [])
    else set_proxy disable_proxy

unfoldable pub lib_parameters : Settings → TdlibParameters
lib_parameters settings = record {
  use_test_dc = false;
  api_id = settings.api_id;
  api_hash = settings.api_hash;
  database_directory = settings.db_folder;
  system_language_code = settings.system_language_code;
  device_model = settings.device_model;
  system_version = settings.system_version;
  application_version = settings.application_version;
  use_file_database = false;
  use_chat_info_database = true;
  use_message_database = false;
  use_secret_chats = false;
}

-- A run of the loop: it ends with the responses left over, or still waits behind the last of them.
pub data AuthRun : Type 0 where
  finished : TdClient → List Response → AuthRun
  waiting : TdClient → AuthRun
  undefined : AuthRun

module _ (settings : Settings) where
  -- `on_authorization_state_update`, for the state that `authorization_state` points to.
  unfoldable pub on_state : AuthorizationState → TdClient → TdClient
  unfolding send_query read_word proxy_query lib_parameters
  on_state ready c = record c { sequence_done = true }
  on_state logging_out c = record c { sequence_done = true }
  on_state closing c = c
  on_state closed c = record c { sequence_done = true }
  on_state wait_code c = ask check_authentication_code c
  on_state wait_registration c =
      let first_name = read_word c.input in
      let last_name = read_word first_name.1 in
      send_query (register_user first_name.0 last_name.0 false)
        (create_authentication_query_handler c) (record c { input = last_name.1 })
  on_state wait_password c = ask check_authentication_password c
  on_state (wait_other_device_confirmation link) c = c
  on_state wait_phone_number c = ask set_authentication_phone_number c
  on_state wait_premium_purchase c = c
  on_state wait_email_address c = c
  on_state wait_email_code c = c
  on_state wait_tdlib_parameters c =
      let c' = send_query (proxy_query settings) ignore c in
      send_query (set_tdlib_parameters (lib_parameters settings))
        (create_authentication_query_handler c') c'

  -- `none` is a null pointer dereferenced.
  unfoldable pub on_authorization_state_update : TdClient → Option TdClient
  unfolding on_state
  on_authorization_state_update c = elim c.authorization_state [
    | none ↦ none
    | some s ↦ some (
        on_state s
          (record c { authentication_query_id = (c.authentication_query_id + 1) % 2 ^ 64 }))
  ]

  unfoldable pub process_update : Object → TdClient → Option TdClient
  unfolding on_authorization_state_update
  process_update (authorization_update s) c =
      on_authorization_state_update (record c { authorization_state = some s })
  process_update error c = some c
  process_update other_object c = some c

  unfoldable pub check_authentication_error : Object → TdClient → Option TdClient
  unfolding on_authorization_state_update
  check_authentication_error error c = on_authorization_state_update c
  check_authentication_error (authorization_update s) c = some c
  check_authentication_error other_object c = some c

  -- A call of a handler.
  unfoldable pub handle : Handler → Object → TdClient → Option TdClient
  unfolding check_authentication_error
  handle ignore object c = some c
  handle (authentication id) object c =
      if id == c.authentication_query_id then check_authentication_error object c else some c

  unfoldable pub process_answer : ℕ → Object → TdClient → Option TdClient
  unfolding handle
  process_answer id object c = elim (lookup id c.handlers) [
    | none ↦ some c
    | some handler ↦ elim (handle handler object c) [
      | none ↦ none
      | some c' ↦ some (record c' { handlers = erase id c'.handlers })
    ]
  ]

  unfoldable pub process_response : Response → TdClient → Option TdClient
  unfolding process_update process_answer
  process_response r c = elim r.object [
    | none ↦ some c
    | some object ↦ if r.id == 0 then process_update object c else process_answer r.id object c
  ]

  -- `auth`, on the responses that `receive` gives.
  unfoldable pub auth : List Response → TdClient → AuthRun
  unfolding process_response
  auth [] c = if c.sequence_done then finished c [] else waiting c
  auth (r ∷ rs) c = elim c.sequence_done [
    | true ↦ finished c (r ∷ rs)
    | false ↦ elim (process_response r c) [ none ↦ undefined | some c' ↦ auth rs c' ]
  ]
