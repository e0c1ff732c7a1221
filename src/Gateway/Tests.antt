-- ===== src/Gateway/Tests.antt =====
-- tg2sip/gateway.cpp: a bridge, a round of the loop and the dialling of extensions on concrete inputs.
use tg2sip_webrtc.Voip.MediaPorts.{destroy_ports, destroy_port}
use tg2sip_webrtc.Prelude.{
  ◌+◌, ◌≤◌, ◌≡◌, refl, [], ◌∷◌, some, text, pos, text_eq, true, false, arith,
}
use tg2sip_webrtc.Outside.{
  UpdateCall, Outside, TdObject, pending, discarded, td, pj, ntg, discard_call, hangup, stop,
}
use tg2sip_webrtc.World.{World, call}
use tg2sip_webrtc.Gateway.Context.{Context, new_context, no_param, Event, tg_call}
use tg2sip_webrtc.Gateway.Actions.{clean_up, stop_voip, discard_tg, hang_up_sip, clean_tg_id}
use tg2sip_webrtc.Gateway.Guards.{is_in_state}
use tg2sip_webrtc.Gateway.Sml.{first_fit_sml}
use tg2sip_webrtc.Gateway.Machine.{FromTg, from_tg, terminated, machine}
use tg2sip_webrtc.Gateway.CleanUp.{IsClean, clean_up_lem}
use tg2sip_webrtc.Gateway.Transitions.{state-process_event, process_event-IsClean, next}
use tg2sip_webrtc.Gateway.Progress.{stays, step, switches, Run-switches}
use tg2sip_webrtc.Gateway.Process.{Gateway, tick}
use tg2sip_webrtc.Gateway.Live.{IsLive, all_live}
use tg2sip_webrtc.Gateway.Live.Round.{tick-IsLive}
use tg2sip_webrtc.Voip.Controller.{make_controller, stop_controller}
use tg2sip_webrtc.Sip.{hang_up}
use tg2sip_webrtc.OptionalQueue.{pop}
use tg2sip_webrtc.Examples.{calm, settings, world, world_of, controller}

-- A call under way: Telegram's call 70, PJSIP's call 5 and a running controller.
abbrev busy : Context
busy = record (new_context (text "1-1")) {
  sip_call_id = pos 5;
  tg_call_id = pos 70;
  controller = some (record controller { created = true; registered = true });
  user_id = pos 12;
}

abbrev hung_up : Event
hung_up = tg_call (record { id = pos 70; user_id = pos 12; is_outgoing = false; state = discarded })

clean_up_lem_example :
    (world_of (clean_up calm settings hung_up busy world)).trace
    ≡ pj (hangup 0 no_param) ∷ td (discard_call (pos 70) (pos 70)) ∷ ntg (stop (pos 12)) ∷ []
unfolding clean_up stop_voip discard_tg hang_up_sip hang_up stop_controller make_controller
    new_context
clean_up_lem_example = (clean_up_lem calm settings hung_up busy world refl).0

state-process_event_example : terminated ≡ next settings (from_tg FromTg.wait_dtmf) hung_up
unfolding machine is_in_state clean_tg_id clean_up stop_voip discard_tg hang_up_sip hang_up
    stop_controller make_controller new_context
state-process_event_example =
    state-process_event first_fit_sml calm settings (from_tg FromTg.wait_dtmf) hung_up busy world
      refl

process_event-IsClean_example : IsClean (record (new_context (text "1-1")) {
  controller = some (record controller { mic_feeder_running = false });
  user_id = pos 12;
})
unfolding machine is_in_state clean_tg_id clean_up stop_voip discard_tg hang_up_sip hang_up
    stop_controller make_controller new_context
process_event-IsClean_example =
    process_event-IsClean first_fit_sml calm settings (from_tg FromTg.wait_dtmf) hung_up busy world
      (λ e. ground (arith, e)) refl

-- The gateway with the one bridge, and the world in which Telegram's end of the call is queued.
abbrev one_bridge : Gateway
one_bridge = record {
  bridges = record { sm = from_tg FromTg.wait_dtmf; ctx = busy } ∷ [];
  pid = 1;
  ctx_counter = 1;
}

abbrev no_bridge : Gateway
no_bridge = record { bridges = []; pid = 1; ctx_counter = 1 }

abbrev told : World
told = record world {
  tg_events =
      some (call (record { id = pos 70; user_id = pos 12; is_outgoing = false; state = discarded }))
      ∷ [];
}

tick-IsLive_example : IsLive no_bridge
unfolding tick all_live pop machine is_in_state clean_tg_id clean_up stop_voip discard_tg
    hang_up_sip hang_up stop_controller make_controller new_context destroy_ports destroy_port
tick-IsLive_example = tick-IsLive first_fit_sml calm settings one_bridge told refl refl

Run-switches_example : switches (from_tg FromTg.wait_dtmf) (terminated ∷ []) + 3 ≤ 5
unfolding machine is_in_state clean_tg_id clean_up stop_voip discard_tg hang_up_sip hang_up
    stop_controller make_controller new_context
Run-switches_example =
    Run-switches first_fit_sml calm settings (from_tg FromTg.wait_dtmf) busy (terminated ∷ [])
      (step hung_up world _ refl stays)

-- TDLib answers every request with an error.
abbrev failing : Outside
failing = record calm { td_answer = λ asked f. TdObject.error (pos 404) (text "gone") }

abbrev ringing_call : UpdateCall
ringing_call = record { id = pos 70; user_id = pos 12; is_outgoing = false; state = pending }
