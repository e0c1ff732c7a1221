-- ===== src/RingBuffer/Tests.antt =====
-- tg2sip/voip/ring_buffer.h: runs on small buffers, and the theorems at concrete inputs.
use tg2sip_webrtc.Prelude.{◌≡◌, refl, List, [], ◌∷◌, pos, arith}
use tg2sip_webrtc.RingBuffer.{RingBuffer, Sample, push, pop, store, fetch, copy_in, copy_out}
use tg2sip_webrtc.RingBuffer.Inv.{IsValid, contents}
use tg2sip_webrtc.RingBuffer.Queue.{Op, pushes, pops, run, queue_run, run_refines}

-- Capacity 4, two samples held round the end of the array.
abbrev wrapped : RingBuffer
wrapped = record { capacity = 4; buffer = pos 9 ∷ pos 0 ∷ pos 0 ∷ pos 8 ∷ []; head = 1; tail = 3 }

abbrev frame : List Sample
frame = pos 1 ∷ pos 2 ∷ pos 3 ∷ []

wrapped-IsValid : IsValid wrapped
wrapped-IsValid = omega arith

-- Only one of three samples fits.
push_drops : contents (push wrapped frame 3) ≡ pos 8 ∷ pos 9 ∷ pos 1 ∷ []
unfolding push store copy_in
push_drops = refl

pop_pads : (pop wrapped 3).0 ≡ pos 8 ∷ pos 9 ∷ pos 0 ∷ []
unfolding pop fetch copy_out
pop_pads = refl

abbrev calls : List Op
calls = pushes frame 3 ∷ pops 2 ∷ pushes frame 2 ∷ pops 4 ∷ []

run_refines_example : run wrapped calls ≡ queue_run 4 (contents wrapped) calls
run_refines_example = run_refines calls wrapped wrapped-IsValid (omega arith)
