-- ===== src/Tg.antt =====
-- tg2sip/tg.h and tg.cpp: `tg::Client`, which numbers the queries to TDLib, hands each answer to the
-- handler of its query, and queues the updates for the gateway.
pub mod Parameters
pub mod Queries
mod Tests
use tg2sip_webrtc.Prelude.{
  ℕ, ◌+◌, ◌%◌, ◌^◌, Option, none, some, List, [], ◌∷◌, Bool, true, false, if◌then◌else◌, ◌==◌,
  nat_eq, lookup, emplace, erase,
}
use tg2sip_webrtc.Outside.{TdFunction, TdObject}
use tg2sip_webrtc.World.{TgUpdate}
use tg2sip_webrtc.Settings.{Settings}
use tg2sip_webrtc.Tg.Parameters.{TdlibParameters, ProxyFunction, init_lib_parameters, init_proxy}
use tg2sip_webrtc.OptionalQueue.{OptionalQueue}
use tg2sip_webrtc.OptionalQueue

-- `td_api::AuthorizationState`, as far as the source tells the states apart.
pub data AuthorizationState : Type 0 where
  ready wait_tdlib_parameters other_state : AuthorizationState

-- An object that TDLib sends: an update, of which `gateway_update` is one of the three kinds that
-- the gateway takes, or the result of a query.
pub data Object : Type 0 where
  authorization_update : AuthorizationState → Object
  gateway_update : TgUpdate → Object
  other_object : Object
  result : TdObject → Object

-- `td::Client::Response`
pub record Response : Type 0 where
  pub id : ℕ
  pub object : Option Object

-- The functions sent: the gateway's, and the two of the authorization, `none` for a null pointer.
pub data Query : Type 0 where
  gateway_query : TdFunction → Query
  set_tdlib_parameters : Option TdlibParameters → Query
  set_proxy : Option ProxyFunction → Query

-- What a handler does with the object: it sets its promise, or looks for an authentication error.
pub data Handler : Type 0 where
  set_promise : ℕ → Handler
  check_authentication : Handler

-- `promises` counts the promises made, and `fulfilled` has the values that were set; `sent` is what
-- TDLib was sent, the newest first. `is_ready` is the value of the promise `is_ready_`. The pointers
-- `lib_parameters` and `set_proxy` are null once they have been moved from.
pub record Client : Type 0 where
  pub lib_parameters : Option TdlibParameters
  pub proxy : Option ProxyFunction
  pub current_query_id : ℕ
  pub handlers : List (ℕ × Handler)
  pub events : OptionalQueue TgUpdate
  pub is_ready : Option Bool
  pub promises : ℕ
  pub fulfilled : List (ℕ × Object)
  pub sent : List (ℕ × Query)

-- A call returns, or throws `std::future_error`, or ends the process.
pub data Ran : Type 0 where
  returned : Client → Ran
  future_error : Ran
  terminated : Ran

-- `Client::Client`
unfoldable pub new_client : Settings → Client
unfolding init_lib_parameters init_proxy
new_client settings = record {
  lib_parameters = some (init_lib_parameters settings);
  proxy = some (init_proxy settings);
  current_query_id = 0;
  handlers = [];
  events = [];
  is_ready = none;
  promises = 0;
  fulfilled = [];
  sent = [];
}

-- `Client::send_query`
unfoldable pub send_query : Query → Handler → Client → Client
send_query q handler c =
    let id = (c.current_query_id + 1) % 2 ^ 64 in
    record c {
      current_query_id = id;
      handlers = emplace id handler c.handlers;
      sent = (id, q) ∷ c.sent;
    }

-- `Client::send_query_async`; the promise that it makes has the number `promises`. A `throw` without
-- an exception to throw again ends the process.
unfoldable pub send_query_async : (in_tg_thread : Bool) → TdFunction → Client → Ran
unfolding send_query
send_query_async true f c = terminated
send_query_async false f c =
    returned (
      send_query (gateway_query f) (set_promise c.promises)
        (record c { promises = c.promises + 1 }))

-- `std::promise::set_value` of `is_ready_`
abbrev set_ready : Bool → Client → Ran
set_ready b c = elim c.is_ready [
  | none ↦ returned (record c { is_ready = some b })
  | some v ↦ future_error
]

-- `Client::on_authorization_state_update`
unfoldable pub on_authorization_state_update : AuthorizationState → Client → Ran
unfolding send_query
on_authorization_state_update ready c = set_ready true c
on_authorization_state_update wait_tdlib_parameters c =
    let moved = record c { lib_parameters = none; proxy = none } in
    returned (
      send_query (set_proxy c.proxy) check_authentication
        (send_query (set_tdlib_parameters c.lib_parameters) check_authentication moved))
on_authorization_state_update other_state c = set_ready false c

-- `Client::process_update`
unfoldable pub process_update : Object → Client → Ran
unfolding on_authorization_state_update
process_update (authorization_update s) c = on_authorization_state_update s c
process_update (gateway_update u) c =
    returned (record c { events = OptionalQueue.emplace (some u) c.events })
process_update other_object c = returned c
process_update (result r) c = returned c

-- A handler's own effect; the second value of a promise is refused and logged.
abbrev pub handle : Handler → Object → Client → Client
handle (set_promise p) object c = record c { fulfilled = emplace p object c.fulfilled }
handle check_authentication object c = c

-- `Client::process_response` with an object
unfoldable pub process_object : ℕ → Object → Client → Ran
unfolding process_update
process_object id object c =
    if id == 0 then process_update object c else elim (lookup id c.handlers) [
      | none ↦ returned c
      | some handler ↦
          let c' = handle handler object c in
          returned (record c' { handlers = erase id c'.handlers })
    ]

-- `Client::process_response`
unfoldable pub process_response : Response → Client → Ran
unfolding process_object
process_response r c = elim r.object [
  | none ↦ returned c
  | some object ↦ process_object r.id object c
]
