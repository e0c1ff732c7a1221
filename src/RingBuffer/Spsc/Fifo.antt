-- ===== src/RingBuffer/Spsc/Fifo.antt =====
-- tg2sip/voip/ring_buffer.h: in every interleaving of one producer with one consumer, the samples
-- come out in the order in which they went in.

use tg2sip_webrtc.Prelude.{
  ℕ, ◌^◌, ◌≤◌, ◌<◌, ◌≡◌, refl, sym, List, [], ◌∷◌, ◌++◌, length, arith, nat_eq,
}
use tg2sip_webrtc.RingBuffer.{init, used}
use tg2sip_webrtc.RingBuffer.Inv.{contents, init-IsValid, distance_cases}
use tg2sip_webrtc.RingBuffer.Refine.{read, used_lt}
use tg2sip_webrtc.RingBuffer.Spsc.{
  System, idle_system, Move, calls_push, pushes_on, calls_pop, pops_on, move, run,
}
use tg2sip_webrtc.RingBuffer.Window.{window_at}
use tg2sip_webrtc.RingBuffer.Spsc.Knows.{ProducerKnows, ConsumerKnows, IsFifo}
use tg2sip_webrtc.RingBuffer.Spsc.Producing.{start_push-IsFifo, move_producer-IsFifo}
use tg2sip_webrtc.RingBuffer.Spsc.Consuming.{start_pop-IsFifo, move_consumer-IsFifo}

-- Every `push` is handed an array that holds the samples it counts.
abbrev IsBacked : Move → Type 0
IsBacked (calls_push input samples) = samples ≤ length input
IsBacked m = Unit {0}

abbrev pub AreBacked : List Move → Type 0
AreBacked [] = Unit {0}
AreBacked (m ∷ ms) = IsBacked m × AreBacked ms

move-IsFifo : (m : Move) (s : System) → IsBacked m → IsFifo s → IsFifo (move m s)
unfolding move
move-IsFifo (calls_push input samples) s b h = start_push-IsFifo input samples s.producer s b h
move-IsFifo pushes_on s b h = move_producer-IsFifo s.producer s h.producer h
move-IsFifo (calls_pop samples) s b h = start_pop-IsFifo samples s.consumer s h
move-IsFifo pops_on s b h = move_consumer-IsFifo s.consumer s h.consumer h

run-IsFifo : (ms : List Move) (s : System) → AreBacked ms → IsFifo s → IsFifo (run ms s)
unfolding run
run-IsFifo [] s b h = h
run-IsFifo (m ∷ ms) s b h = run-IsFifo ms (move m s) b.1 (move-IsFifo m s b.0 h)

idle_system-IsFifo : (n : ℕ) → 0 < n → n ≤ 2 ^ 63 → IsFifo (idle_system (init n))
unfolding init
idle_system-IsFifo n h small = record {
  valid = init-IsValid n h small;
  fifo = sym (window_at (read (init n)) {i = 0} {m = 0} refl empty);
  producer = ProducerKnows.nothing;
  consumer = ConsumerKnows.nothing;
}
  where
    empty : used (init n) ≡ 0
    empty = ground (arith, distance_cases n 0 0 small h h)

-- However the accesses of one producer and one consumer interleave, from an empty buffer of up to
-- 2^63 samples: the samples that have gone in are those that have come out followed by those that
-- wait, in order, and fewer wait than the capacity.
pub run-fifo :
    (n : ℕ) (ms : List Move)
    → 0 < n
    → n ≤ 2 ^ 63
    → AreBacked ms
    → ((run ms (idle_system (init n))).appended
        ≡ (run ms (idle_system (init n))).taken ++ contents (run ms (idle_system (init n))).shared)
      × (used (run ms (idle_system (init n))).shared
          < (run ms (idle_system (init n))).shared.capacity)
run-fifo n ms h small b =
    let last = run-IsFifo ms (idle_system (init n)) b (idle_system-IsFifo n h small) in
    (last.fifo, used_lt _ last.valid)
