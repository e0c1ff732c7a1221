-- ===== src/Gateway/Context.antt =====
-- tg2sip/gateway.h: `Context`, what a bridge knows of its call, and the events that its state
-- machine takes. tg2sip/gateway.cpp: `Context::Context` and `next_ctx_id`.
use tg2sip_webrtc.Prelude.{ℕ, Option, none, [], ◌++◌, Text, text, ℤ, pos, false}
use tg2sip_webrtc.Utils.{to_string}
use tg2sip_webrtc.Outside.{CallOpParam, UpdateCall, UpdateNewMessage}
use tg2sip_webrtc.World.{M, SipEvent}
use tg2sip_webrtc.Sip.{invalid_id}
use tg2sip_webrtc.Voip.Controller.{TgCallsController}

-- `pj::CallOpParam()`
abbrev pub no_param : CallOpParam
no_param = record { use_default_call_setting = false; status_code = 0; reason = []; headers = [] }

pub record Context : Type 0 where
  pub id : Text
  pub sip_call_id : ℤ
  pub tg_call_id : ℤ
  pub controller : Option TgCallsController
  pub ext_phone : Text
  pub ext_username : Text
  pub user_id : ℤ
  pub hangup_prm : CallOpParam

-- `Context::next_ctx_id`, from the process id and the value of the counter after its increment.
unfoldable pub ctx_id_of : ℕ → ℕ → Text
ctx_id_of pid counter = to_string (pos pid) ++ text "-" ++ to_string (pos counter)

unfoldable pub new_context : Text → Context
new_context id = record {
  id = id;
  sip_call_id = invalid_id;
  tg_call_id = pos 0;
  controller = none;
  ext_phone = [];
  ext_username = [];
  user_id = pos 0;
  hangup_prm = no_param;
}

-- The events of the state machine.
pub data Event : Type 0 where
  tg_call : UpdateCall → Event
  tg_message : UpdateNewMessage → Event
  sip : SipEvent → Event
  internal_error : CallOpParam → Event

-- An action of a transition, or an entry action.
abbrev pub Action : Type 0
Action = Event → Context → M Context
