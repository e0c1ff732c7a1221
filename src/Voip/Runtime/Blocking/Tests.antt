-- ===== src/Voip/Runtime/Blocking/Tests.antt =====
-- tg2sip/voip/ntgcalls_runtime.h, `CallBlocking`: a call that ntgcalls ends with an error.
use tg2sip_webrtc.Prelude.{◌≡◌, refl, List, [], ◌∷◌, ◌++◌, text, negsuc, true}
use tg2sip_webrtc.Utils.{to_string}
use tg2sip_webrtc.Outside.{NtgResult, errored}
use tg2sip_webrtc.Voip.Controller.{blocking_result}
use tg2sip_webrtc.Voip.Runtime.Blocking.{start, Move, caller_on, worker_on, spurious, run}
use tg2sip_webrtc.Voip.Runtime.Blocking.Invariant.{frees}
use tg2sip_webrtc.Voip.Runtime.Blocking.Ends.{
  has_ended, is_away, outcome, rounds, call_blocking-ended, call_blocking-ends,
}

abbrev no_device : NtgResult
no_device = errored (negsuc 102) (text "no device")

-- The caller sleeps, wakes up for nothing, sleeps again, and is notified.
abbrev waits : List Move
waits =
    caller_on ∷ caller_on ∷ caller_on ∷ caller_on ∷ spurious ∷ caller_on ∷ caller_on ∷ worker_on
    ∷ []

call_blocking-ends_example : has_ended (run no_device (waits ++ rounds 8) start).caller ≡ true
call_blocking-ends_example = call_blocking-ends no_device waits tt

call_blocking-ended_example :
    (outcome (run no_device (waits ++ rounds 8) start).caller ≡ blocking_result no_device)
    × (is_away (run no_device (waits ++ rounds 8) start).worker ≡ true)
    × ((run no_device (waits ++ rounds 8) start).freed
        ≡ frees no_device (run no_device (waits ++ rounds 8) start).caller)
call_blocking-ended_example =
    call_blocking-ended no_device (waits ++ rounds 8) tt (call_blocking-ends no_device waits tt)

-- What that run comes to.
freed_once : (run no_device (waits ++ rounds 8) start).freed ≡ 1
unfolding run to_string
freed_once = refl
