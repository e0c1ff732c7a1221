-- ===== src/Gateway/Machine.antt =====
-- tg2sip/gateway.cpp, namespace `state_machine`: the transition tables `from_tg`, `from_sip` and
-- `StateMachine`.
use tg2sip_webrtc.Prelude.{Bool, true, false, not, ◌&&◌, ◌||◌, List, [], ◌∷◌, ◌++◌}
use tg2sip_webrtc.Outside.{Outside, early, disconnected}
use tg2sip_webrtc.World.{◌>>=◌, pure}
use tg2sip_webrtc.Settings.{Settings}
use tg2sip_webrtc.Gateway.Context.{Context, Event, Action}
use tg2sip_webrtc.Gateway.Guards.{
  is_incoming, is_in_state, callback_uri_is_set, is_sip_in_state, is_text_content, is_dtmf_string,
  pending_id, ready_id, discarded_id, error_id, on_call, on_message, on_incoming, on_call_state,
  on_media, on_internal_error,
}
use tg2sip_webrtc.Gateway.Actions.{
  store_sip_id, store_tg_id, store_tg_user_id, clean_tg_id, clean_sip_id, set_hangup_prm, clean_up,
  dial_sip, answer_tg, accept_incoming_sip, answer_sip, create_tg_voip, bridge_audio, dial_dtmf,
}
use tg2sip_webrtc.Gateway.DialTg.{dial_tg}
use tg2sip_webrtc.Gateway.Sml.{Row, Machine}

-- The states of `from_tg`.
pub data FromTg : Type 0 where
  sip_wait_media wait_tg wait_dtmf : FromTg

-- The states of `from_sip`.
pub data FromSip : Type 0 where
  sip_wait_confirm wait_tg sip_wait_media wait_dtmf : FromSip

-- `X` is the terminal state.
pub data State : Type 0 where
  init : State
  from_tg : FromTg → State
  from_sip : FromSip → State
  terminated : State

abbrev pub is_init : State → Bool
is_init init = true
is_init s = false

abbrev is_from_tg : State → Bool
is_from_tg (from_tg q) = true
is_from_tg s = false

abbrev is_from_sip : State → Bool
is_from_sip (from_sip q) = true
is_from_sip s = false

-- `sm->is(sml::X)`
abbrev pub is_terminated : State → Bool
is_terminated terminated = true
is_terminated s = false

abbrev in_tg_wait_media : State → Bool
in_tg_wait_media (from_tg FromTg.sip_wait_media) = true
in_tg_wait_media s = false

abbrev pub in_tg_wait_tg : State → Bool
in_tg_wait_tg (from_tg FromTg.wait_tg) = true
in_tg_wait_tg s = false

abbrev pub in_tg_wait_dtmf : State → Bool
in_tg_wait_dtmf (from_tg FromTg.wait_dtmf) = true
in_tg_wait_dtmf s = false

abbrev pub in_sip_wait_confirm : State → Bool
in_sip_wait_confirm (from_sip sip_wait_confirm) = true
in_sip_wait_confirm s = false

abbrev pub in_sip_wait_tg : State → Bool
in_sip_wait_tg (from_sip FromSip.wait_tg) = true
in_sip_wait_tg s = false

abbrev in_sip_wait_media : State → Bool
in_sip_wait_media (from_sip FromSip.sip_wait_media) = true
in_sip_wait_media s = false

abbrev pub in_sip_wait_dtmf : State → Bool
in_sip_wait_dtmf (from_sip FromSip.wait_dtmf) = true
in_sip_wait_dtmf s = false

abbrev pub GatewayRow : Type 0
GatewayRow = Row State Event Context

abbrev pub row : (State → Bool) → (Event → Bool) → Action → State → GatewayRow
row source takes action target = record {
  source = source;
  takes = takes;
  action = action;
  target = target;
}

-- `(a, b)` of a row: one action after the other.
infixr 5 ◌then_do◌
abbrev pub ◌then_do◌ : Action → Action → Action
◌then_do◌ a b e ctx = a e ctx >>= b e

abbrev pub no_action : Action
no_action e ctx = pure ctx

module _ (o : Outside) (settings : Settings) where
  unfoldable pub from_tg_table : List GatewayRow
  from_tg_table =
      row in_tg_wait_media (on_media λ has_media. has_media) (answer_tg o settings)
        (from_tg FromTg.wait_tg)
      ∷ row in_tg_wait_tg (on_call (is_in_state ready_id))
          (create_tg_voip o settings then_do bridge_audio o settings) (from_tg FromTg.wait_dtmf)
      ∷ row in_tg_wait_dtmf (on_message λ m. is_text_content m && is_dtmf_string m)
          (dial_dtmf o settings) (from_tg FromTg.wait_dtmf)
      ∷ []

  unfoldable pub from_sip_table : List GatewayRow
  from_sip_table =
      row in_sip_wait_confirm (on_call_state (is_sip_in_state early)) (dial_tg o settings)
        (from_sip FromSip.wait_tg)
      ∷ row in_sip_wait_tg (on_call (is_in_state ready_id))
          (store_tg_user_id then_do create_tg_voip o settings then_do answer_sip o settings)
          (from_sip FromSip.sip_wait_media)
      ∷ row in_sip_wait_media (on_media λ has_media. has_media) (bridge_audio o settings)
          (from_sip FromSip.wait_dtmf)
      ∷ row in_sip_wait_dtmf (on_message λ m. is_text_content m && is_dtmf_string m)
          (dial_dtmf o settings) (from_sip FromSip.wait_dtmf)
      ∷ []

  unfoldable pub state_machine_table : List GatewayRow
  state_machine_table =
      row is_init
        (on_call λ u. is_incoming u && is_in_state pending_id u && callback_uri_is_set settings)
        (store_tg_id then_do store_tg_user_id then_do dial_sip o settings)
        (from_tg FromTg.sip_wait_media)
      ∷ row is_init
          (on_call
            λ u. is_incoming u && is_in_state pending_id u && not (callback_uri_is_set settings))
          store_tg_id terminated
      ∷ row is_init (on_call λ u. true) no_action terminated
      ∷ row is_init on_incoming (store_sip_id then_do accept_incoming_sip o settings)
          (from_sip sip_wait_confirm)
      ∷ row is_init (on_call_state λ s. true) no_action terminated
      ∷ row is_init (on_media λ m. true) no_action terminated
      ∷ row is_from_tg (on_call λ u. is_in_state discarded_id u || is_in_state error_id u)
          clean_tg_id terminated
      ∷ row is_from_tg (on_call_state (is_sip_in_state disconnected)) clean_sip_id terminated
      ∷ row is_from_tg on_internal_error set_hangup_prm terminated
      ∷ row is_from_sip (on_call λ u. is_in_state discarded_id u || is_in_state error_id u)
          clean_tg_id terminated
      ∷ row is_from_sip on_internal_error set_hangup_prm terminated
      ∷ row is_from_sip (on_call_state (is_sip_in_state disconnected)) clean_sip_id terminated
      ∷ []

  -- `X + on_entry<_> / CleanUp{}`
  unfoldable pub entry : State → Action
  entry s e ctx = elim s [ terminated ↦ clean_up o settings e ctx | _ ↦ pure ctx ]

  unfoldable pub machine : Machine State Event Context
  unfolding from_tg_table from_sip_table state_machine_table entry
  machine = record {
    submachine_rows = from_tg_table ++ from_sip_table;
    rows = state_machine_table;
    on_entry = entry;
  }
