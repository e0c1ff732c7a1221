-- ===== src/RingBuffer/Spsc/Tests.antt =====
-- tg2sip/voip/ring_buffer.h: a `push` and a `pop` that overlap.
use tg2sip_webrtc.Prelude.{◌≡◌, refl, ◌<◌, [], ◌∷◌, ◌++◌, pos, arith, List}
use tg2sip_webrtc.RingBuffer.{Sample, init, used}
use tg2sip_webrtc.RingBuffer.Inv.{contents}
use tg2sip_webrtc.RingBuffer.Spsc.{
  Producer, System, idle_system, Move, calls_push, pushes_on, calls_pop, pops_on, move, run,
  start_push, move_producer, start_pop, move_consumer,
}
use tg2sip_webrtc.RingBuffer.Spsc.Fifo.{run-fifo}
use tg2sip_webrtc.RingBuffer.Spsc.WaitFree.{PushEnds, push_ends}

abbrev frame : List Sample
frame = pos 7 ∷ pos 8 ∷ []

-- The samples are pushed; a first `pop` begins before the head is stored, and a second one after.
abbrev overlapping : List Move
overlapping =
    calls_push frame 2
    ∷ pushes_on
    ∷ pushes_on
    ∷ calls_pop 1
    ∷ pushes_on
    ∷ pops_on
    ∷ pushes_on
    ∷ pops_on
    ∷ calls_pop 1
    ∷ pops_on
    ∷ pops_on
    ∷ pops_on
    ∷ []

abbrev last : System
last = run overlapping (idle_system (init 4))

-- The first `pop` saw no samples, and the second one took the first.
last_returned : last.returned ≡ (pos 7 ∷ []) ∷ (pos 0 ∷ []) ∷ []
unfolding run move start_push move_producer start_pop move_consumer init
last_returned = refl

run-fifo_example :
    (last.appended ≡ last.taken ++ contents last.shared) × (used last.shared < last.shared.capacity)
run-fifo_example =
    run-fifo 4 overlapping (omega arith) (omega arith)
      (omega arith, (tt, (tt, (tt, (tt, (tt, (tt, (tt, (tt, (tt, (tt, (tt, tt))))))))))))

abbrev pushing_system : System
pushing_system = record (idle_system (init 4)) { producer = Producer.loaded_head frame 2 0 }

push_ends_example :
    PushEnds
      (pushes_on ∷ calls_pop 1 ∷ pushes_on ∷ pops_on ∷ pushes_on ∷ pushes_on ∷ [])
      pushing_system
push_ends_example =
    push_ends (pushes_on ∷ calls_pop 1 ∷ pushes_on ∷ pops_on ∷ pushes_on ∷ pushes_on ∷ [])
      pushing_system (omega arith)
