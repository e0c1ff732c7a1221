-- ===== src/Gateway/Throws/Tests.antt =====
-- tg2sip/gateway.cpp: what comes out of the gateway when PJSIP or TDLib fails.
use tg2sip_webrtc.Prelude.{◌≢◌, refl, [], ◌∷◌, text, pos, false, List}
use tg2sip_webrtc.Outside.{Outside, PjFunction, port, PjResult, TdObject, UpdateCall, pending}
use tg2sip_webrtc.World.{threw, aborted, range_error, pj_error, incoming_call}
use tg2sip_webrtc.Gateway.Context.{new_context, tg_call}
use tg2sip_webrtc.Gateway.Sml.{first_fit_sml}
use tg2sip_webrtc.Gateway.Machine.{init, machine}
use tg2sip_webrtc.Gateway.Transitions.{next}
use tg2sip_webrtc.Gateway.Numbers.{fresh}
use tg2sip_webrtc.Gateway.Schedule.{Happening, round, arrives, from_pjsip, run}
use tg2sip_webrtc.Gateway.Throws.Escape.{ThrownInto, process_event-aborts}
use tg2sip_webrtc.Gateway.Throws.{Contained, NotRangeError}
use tg2sip_webrtc.Gateway.Throws.Loop.{run-no_pj_error}
use tg2sip_webrtc.Examples.{calm, settings, world}

-- PJSIP fails whatever it is asked, and TDLib answers everything with an error.
abbrev failing : Outside
failing = record calm {
  pj_answer = λ asked f. PjResult.failed (text "busy");
  td_answer = λ asked f. TdObject.error (pos 404) (text "Not Found");
}

abbrev ring_once : List Happening
ring_once = arrives (from_pjsip (incoming_call (pos 5) (text "123"))) ∷ round ∷ round ∷ []

-- PJSIP fails whatever it is asked of a call, and takes every port.
abbrev but_ports : PjFunction → PjResult
but_ports (port owner d c) = PjResult.returned
but_ports f = PjResult.failed (text "busy")

abbrev no_calls : Outside
no_calls = record failing { pj_answer = λ asked f. but_ports f }

run-no_pj_error_example :
    (run first_fit_sml no_calls settings ring_once (fresh 1) world ≢ threw range_error world)
    × (run first_fit_sml no_calls settings ring_once (fresh 1) world
        ≢ aborted (pj_error (text "busy")))
run-no_pj_error_example =
    run-no_pj_error first_fit_sml no_calls settings (λ t owner d c. refl) ring_once (fresh 1) world
      range_error world (text "busy")

abbrev unknown : UpdateCall
unknown = record { id = pos 70; user_id = pos 12; is_outgoing = false; state = pending }

process_event-aborts_example :
    Contained (ThrownInto NotRangeError (next settings init (tg_call unknown)) init) (
      first_fit_sml.process_event
        (machine failing settings)
        init
        (tg_call unknown)
        (new_context (text "1-1"))
        world)
process_event-aborts_example =
    process_event-aborts first_fit_sml failing settings init (tg_call unknown)
      (new_context (text "1-1")) world
