-- ===== src/Gateway/LoopTests.antt =====
-- tg2sip/gateway.cpp: runs of the loop on concrete inputs.
use tg2sip_webrtc.Prelude.{◌≡◌, refl, [], ◌∷◌, some, text, pos, true, false, arith, List}
use tg2sip_webrtc.Outside.{pending, discarded, disconnected, UpdateCall}
use tg2sip_webrtc.World.{
  World, done, internal_error, incoming_call, call_state_update, SipEvent, call, TgUpdate,
  other_update,
}
use tg2sip_webrtc.Utils.{to_string, is_digits, parse_digits}
use tg2sip_webrtc.OptionalQueue.{pop, emplace}
use tg2sip_webrtc.Sip.{answer_call}
use tg2sip_webrtc.Gateway.Context.{new_context, ctx_id_of, no_param, Event}
use tg2sip_webrtc.Gateway.Values.{read_extension}
use tg2sip_webrtc.Gateway.Guards.{is_in_state, is_incoming}
use tg2sip_webrtc.Gateway.Actions.{
  accept_incoming_sip, store_sip_id, clean_up, stop_voip, discard_tg, hang_up_sip,
}
use tg2sip_webrtc.Gateway.Sml.{first_fit_sml}
use tg2sip_webrtc.Gateway.Machine.{machine, from_sip, sip_wait_confirm}
use tg2sip_webrtc.Gateway.Process.{
  Gateway, Bridge, tick, deliver, process_internal, process_sip, find_index,
}
use tg2sip_webrtc.Gateway.Numbers.{no_bridges, fresh}
use tg2sip_webrtc.Gateway.Numbers.Unique.{internal_error_reaches}
use tg2sip_webrtc.Gateway.Schedule.{Happening, round, arrives, from_pjsip, run, rounds, enqueue}
use tg2sip_webrtc.Gateway.Schedule.Taken.{UpdateTaken, update_taken}
use tg2sip_webrtc.Gateway.Stray.{process_sip-stray}
use tg2sip_webrtc.Examples.{calm, settings, world}

-- A SIP call for the extension 123 comes in, and a round handles it.
abbrev rings : SipEvent
rings = incoming_call (pos 5) (text "123")

abbrev ringing_bridge : Bridge
ringing_bridge = record {
  sm = from_sip sip_wait_confirm;
  ctx = record (new_context (text "1-1")) { sip_call_id = pos 5; user_id = pos 123 };
}

abbrev ringing_gateway : Gateway
ringing_gateway = record { bridges = ringing_bridge ∷ []; pid = 1; ctx_counter = 1 }

internal_error_reaches_example :
    process_internal first_fit_sml calm settings
      (internal_error (text "1-1") no_param)
      ringing_gateway
    ≡ deliver first_fit_sml calm settings (Event.internal_error no_param) (ringing_gateway, 0)
unfolding run tick pop emplace enqueue machine accept_incoming_sip store_sip_id answer_call
    read_extension new_context ctx_id_of to_string is_digits parse_digits
internal_error_reaches_example =
    internal_error_reaches first_fit_sml calm settings (arrives (from_pjsip rings) ∷ round ∷ []) 1
      world 0 ringing_bridge no_param refl (omega arith) refl

-- A new call of Telegram waits behind an update that is ignored.
abbrev new_call : TgUpdate
new_call = call (record { id = pos 70; user_id = pos 12; is_outgoing = true; state = pending })

abbrev waiting : World
waiting = record world { tg_events = some other_update ∷ some new_call ∷ [] }

abbrev two_rounds : List Happening
two_rounds = round ∷ arrives (from_pjsip rings) ∷ round ∷ []

update_taken_example :
    UpdateTaken first_fit_sml calm settings two_rounds 1 (fresh 1) waiting new_call
unfolding run tick pop emplace enqueue machine is_in_state is_incoming accept_incoming_sip
    store_sip_id answer_call read_extension new_context ctx_id_of to_string is_digits parse_digits
    rounds clean_up stop_voip discard_tg hang_up_sip
update_taken_example =
    update_taken first_fit_sml calm settings two_rounds 1 (fresh 1) waiting new_call no_bridges refl
      refl (omega arith)

-- Telegram ends a call that no bridge has.
abbrev gone : UpdateCall
gone = record { id = pos 71; user_id = pos 12; is_outgoing = false; state = discarded }

process_sip-stray_example :
    process_sip first_fit_sml calm settings
      (call_state_update (pos 9) disconnected)
      ringing_gateway
      world
    ≡ done (record ringing_gateway { ctx_counter = 2 }) world
unfolding find_index new_context
process_sip-stray_example =
    process_sip-stray first_fit_sml calm settings (call_state_update (pos 9) disconnected)
      ringing_gateway world refl refl
