-- ===== src/Voip/Runtime/Dispatch/Tests.antt =====
-- tg2sip/voip/ntgcalls_runtime.cpp: two controllers and a callback of ntgcalls.
use tg2sip_webrtc.Prelude.{ℕ, ◌≡◌, ◌≢◌, refl, ℤ, pos, true, List, [], ◌∷◌, ◌++◌}
use tg2sip_webrtc.Voip.Runtime.Dispatch.{
  Owner, Callback, Holder, start, Move, starts, stops, destroys, owner_on, fires, callback_on, run,
}
use tg2sip_webrtc.Voip.Runtime.Dispatch.Invariant.{is_attached}
use tg2sip_webrtc.Voip.Runtime.Dispatch.Safety.{in_sink-is_attached, detached-silent}
use tg2sip_webrtc.Voip.Runtime.Dispatch.Waiting.{let_go, goes_on, unregister_ends}

-- Each controller has a user of its own.
abbrev users : ℕ → ℤ
users i = pos i

-- Controller 4 registers, a callback for its user enters the sink, and `Stop` waits.
abbrev registers : List Move
registers = starts 4 ∷ owner_on 4 ∷ owner_on 4 ∷ owner_on 4 ∷ []

abbrev in_call : List Move
in_call = registers ++ fires 0 (pos 4) ∷ callback_on 0 ∷ callback_on 0 ∷ stops 4 ∷ owner_on 4 ∷ []

in_sink-is_attached_example :
    (is_attached ((run users in_call start).owner 4) ≡ true)
    × ((run users in_call start).mutex ≡ Holder.callback 0)
unfolding run
in_sink-is_attached_example = in_sink-is_attached users in_call 0 4 refl

unregister_ends_example :
    ((run users (in_call ++ let_go (run users in_call start).mutex ++ goes_on 4) start).owner 4
      ≡ Owner.detached)
    × ((run users (in_call ++ let_go (run users in_call start).mutex ++ goes_on 4) start).mutex
        ≡ Holder.nobody)
unfolding run
unregister_ends_example = unregister_ends users in_call 4 refl

-- After the whole of that the callback is called again, and the controller is destroyed.
abbrev stopped : List Move
stopped = in_call ++ callback_on 0 ∷ callback_on 0 ∷ owner_on 4 ∷ owner_on 4 ∷ owner_on 4 ∷ []

abbrev calls_again : List Move
calls_again = fires 0 (pos 4) ∷ destroys 4 ∷ callback_on 0 ∷ callback_on 0 ∷ []

detached-silent_example :
    (run users calls_again (run users stopped start)).thread 0 ≢ Callback.in_sink 4
unfolding run
detached-silent_example = detached-silent users stopped calls_again 0 4 refl tt
