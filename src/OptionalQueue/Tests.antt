-- ===== src/OptionalQueue/Tests.antt =====
-- tg2sip/queue.h: a run with an early pop.
use tg2sip_webrtc.Prelude.{◌≡◌, List, [], ◌∷◌, ◌++◌, ℕ}
use tg2sip_webrtc.OptionalQueue.Fifo.{Call, emplaces, pops, emplaced, run, values, values-run}

abbrev calls : List (Call ℕ)
calls = emplaces 1 ∷ pops ∷ pops ∷ emplaces 2 ∷ emplaces 3 ∷ pops ∷ []

values-run_example :
    values (run [] calls).0 ++ values (run [] calls).1 ≡ values [] ++ emplaced calls
values-run_example = values-run calls []
