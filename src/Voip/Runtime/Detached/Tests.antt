-- ===== src/Voip/Runtime/Detached/Tests.antt =====
-- tg2sip/voip/ntgcalls_runtime.h, `CallDetached`: a rejected call.
use tg2sip_webrtc.Prelude.{[], ◌∷◌, negsuc}
use tg2sip_webrtc.Outside.{NtgResult, rejected}
use tg2sip_webrtc.Voip.Runtime.Detached.{start, caller_on, run}
use tg2sip_webrtc.Voip.Runtime.Detached.Clean.{IsClean, rounds, call_detached-IsClean}

abbrev refused : NtgResult
refused = rejected (negsuc 2)

call_detached-IsClean_example : IsClean (run refused (caller_on ∷ caller_on ∷ rounds 5) start)
call_detached-IsClean_example = call_detached-IsClean refused (caller_on ∷ caller_on ∷ []) λ e. cc e
