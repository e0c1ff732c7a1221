-- ===== src/Sip/Tests.antt =====
-- tg2sip/sip.cpp: the table of calls on concrete calls.
use tg2sip_webrtc.Prelude.{◌≡◌, refl, text, pos, int_eq}
use tg2sip_webrtc.Outside.{answer}
use tg2sip_webrtc.World.{ask_pj, ◌>>=◌, pure}
use tg2sip_webrtc.Gateway.Context.{no_param}
use tg2sip_webrtc.Sip.{answer_call, on_incoming_call}
use tg2sip_webrtc.Sip.Calls.{answer_call-kept}
use tg2sip_webrtc.Examples.{calm, world, world_of}

-- The new call has the id 5 of the kept one: the answer goes to object 0.
answer_call-kept_example :
    answer_call calm (pos 5) no_param (world_of (on_incoming_call calm (pos 5) world))
    ≡ (ask_pj calm (answer 0 no_param) >>= λ r. pure tt)
        (world_of (on_incoming_call calm (pos 5) world))
unfolding on_incoming_call
answer_call-kept_example =
    answer_call-kept calm (pos 5) (record { object = 0; local_user = text "123" }) no_param world
      refl refl
