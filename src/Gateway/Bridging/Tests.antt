-- ===== src/Gateway/Bridging/Tests.antt =====
-- A call to the Telegram user 123 on a concrete outside.
use tg2sip_webrtc.Prelude.{
  List, ℕ, replicate, arith, none, false, ◌≡◌, refl, [], ◌∷◌, pos, true, text,
}
use tg2sip_webrtc.Outside.{
  Outside, UpdateCall, ready, pending, MediaInfo, User, TdFunction, TdObject, get_user, completed,
}
use tg2sip_webrtc.World.{World, SipCall, done}
use tg2sip_webrtc.Gateway.Sml.{first_fit_sml}
use tg2sip_webrtc.Gateway.Machine.{from_sip, FromSip, from_tg, FromTg}
use tg2sip_webrtc.Gateway.Process.{Gateway}
use tg2sip_webrtc.Gateway.Bridging.Outgoing.{CallsOut}
use tg2sip_webrtc.Gateway.Bridging.CallOut.{
  call_out, call_out-bridged, bridged_context, bridged_world,
}
use tg2sip_webrtc.Gateway.Bridging.Deliver.{with_bridge}
use tg2sip_webrtc.Gateway.Bridging.Incoming.{CallsIn}
use tg2sip_webrtc.Gateway.Bridging.CallIn.{call_in, call_in-bridged, talking_context, talking_world}
use tg2sip_webrtc.Gateway.Guards.{callback_uri_is_set}
use tg2sip_webrtc.Sip
use tg2sip_webrtc.Examples.{calm, settings, world}

-- The 256 bytes of a key.
abbrev key : List ℕ
key = replicate 256 7

abbrev empty_gateway : Gateway
empty_gateway = record { bridges = []; pid = 7; ctx_counter = 0 }

abbrev the_call : SipCall
the_call = record { object = 0; local_user = text "123" }

abbrev is_ready : UpdateCall
is_ready = record { id = pos 70; user_id = pos 123; is_outgoing = true; state = ready key [] }

abbrev one_medium : MediaInfo
one_medium = record { is_audio = true; is_there = true; is_audio_media = true }

calm-CallsOut : CallsOut 0 0 (one_medium ∷ []) (pos 70) calm
unfolding Sip.audio_media_from
calm-CallsOut = record {
  carries = record {
    gives_media = λ t. refl;
    has_audio = refl;
    connects_input = λ t. refl;
    connects_output = λ t. refl;
    takes = λ t owner d call. refl;
    completes = λ t f. refl;
  };
  answers = λ t p. refl;
  creates = λ t user settings. refl;
}

call_out-bridged_example :
    call_out first_fit_sml calm settings (pos 5) 123 is_ready empty_gateway world
    ≡ done
        (with_bridge empty_gateway
          (from_sip FromSip.wait_dtmf)
          (bridged_context settings empty_gateway (pos 5) 123 is_ready key []))
        (bridged_world calm settings 0 empty_gateway 123 is_ready key [] the_call world)
unfolding tg2sip_webrtc.Gateway.Process.find_index
call_out-bridged_example =
    call_out-bridged first_fit_sml calm settings 0 (one_medium ∷ []) (pos 5) 123 is_ready key []
      the_call empty_gateway world calm-CallsOut (λ t. ground arith) (ground arith) refl refl
      (ground arith) refl refl

abbrev alice : User
alice = record {
  id = pos 44;
  have_access = true;
  first_name = text "Alice";
  last_name = [];
  username = none;
  phone_number = [];
}

abbrev known_caller : TdFunction → TdObject
known_caller (get_user id) = TdObject.user alice
known_caller f = TdObject.ok

abbrev calling_in : Outside
calling_in = record {
  td_answer = λ asked f. known_caller f;
  pj_answer = λ asked f. calm.pj_answer asked f;
  ntg_answer = λ asked f. completed;
  asserts = true;
  clock_answer = λ asked. 1000;
  min_layer = pos 65;
  max_layer = pos 92;
}

calling_in-CallsIn : CallsIn 0 0 (one_medium ∷ []) (pos 5) alice calling_in
unfolding Sip.audio_media_from
calling_in-CallsIn = record {
  carries = record {
    gives_media = λ t. refl;
    has_audio = refl;
    connects_input = λ t. refl;
    connects_output = λ t. refl;
    takes = λ t owner d call. refl;
    completes = λ t f. refl;
  };
  makes = λ t uri p. refl;
  gives_id = λ t. refl;
  gives_user = λ t id. refl;
  accepts = λ t id settings. refl;
}

abbrev quiet_world : World
quiet_world = record world { objects = 0; calls = [] }

abbrev rings_in : UpdateCall
rings_in = record { id = pos 71; user_id = pos 44; is_outgoing = false; state = pending }

abbrev ready_in : UpdateCall
ready_in = record rings_in { state = ready key [] }

call_in-bridged_example :
    call_in first_fit_sml calling_in settings rings_in (pos 5) ready_in empty_gateway quiet_world
    ≡ done
        (with_bridge empty_gateway
          (from_tg FromTg.wait_dtmf)
          (talking_context settings empty_gateway (pos 5) rings_in ready_in key []))
        (talking_world calling_in settings 0
          (pos 5)
          alice
          empty_gateway
          rings_in
          ready_in
          key
          []
          quiet_world)
unfolding tg2sip_webrtc.Gateway.Process.find_index callback_uri_is_set
call_in-bridged_example =
    call_in-bridged first_fit_sml calling_in settings 0 (one_medium ∷ []) (pos 5) alice rings_in
      ready_in key [] empty_gateway quiet_world calling_in-CallsIn refl refl refl refl refl
      (ground arith) refl refl refl
