-- ===== src/RingBuffer/Queue.antt =====
-- tg2sip/voip/ring_buffer.h: the abstract queue, and any sequence of calls against it.
use tg2sip_webrtc.Prelude.{
  ℕ, ◌-◌, ◌≤◌, min, ◌≡◌, refl, ap₂, ◌∙◌, List, [], ◌∷◌, ◌++◌, take, drop, length, replicate,
}
use tg2sip_webrtc.RingBuffer.{RingBuffer, Sample, silence, push, pop}
use tg2sip_webrtc.RingBuffer.Inv.{IsValid, contents}
use tg2sip_webrtc.RingBuffer.Refine.{push_refines, pop_refines}

pub data Op : Type 0 where
  pushes : List Sample → ℕ → Op
  pops : ℕ → Op

-- Every `pushes` hands over an array that holds the samples it counts.
abbrev pub AreBacked : List Op → Type 0
AreBacked [] = Unit {0}
AreBacked (pushes input samples ∷ ops) = (samples ≤ length input) × AreBacked ops
AreBacked (pops samples ∷ ops) = AreBacked ops

-- What each `pop` of a sequence of calls hands to the caller.
pub run : RingBuffer → List Op → List (List Sample)
run r [] = []
run r (pushes input samples ∷ ops) = run (push r input samples) ops
run r (pops samples ∷ ops) = (pop r samples).0 ∷ run (pop r samples).1 ops

-- The same for a queue of at most `capacity - 1` samples.
pub queue_run : ℕ → List Sample → List Op → List (List Sample)
queue_run capacity q [] = []
queue_run capacity q (pushes input samples ∷ ops) =
    queue_run capacity (q ++ take (min samples (capacity - 1 - length q)) input) ops
queue_run capacity q (pops samples ∷ ops) =
    (take samples q ++ replicate (samples - length q) silence)
    ∷ queue_run capacity (drop samples q) ops

-- For a valid buffer and calls whose pushes are backed by their arrays, no sequence of pushes and
-- pops tells the buffer from a queue of the samples it holds, bounded by `capacity - 1`, that
-- drops what does not fit and pads with silence.
pub run_refines :
    (ops : List Op) (r : RingBuffer)
    → IsValid r
    → AreBacked ops
    → run r ops ≡ queue_run r.capacity (contents r) ops
unfolding run queue_run
run_refines [] r v b = refl
run_refines (pushes input samples ∷ ops) r v b =
    let p = push_refines r v input samples b.0 in
    run_refines ops (push r input samples) p.1 b.1 ∙ ap₂ (λ c q. queue_run c q ops) p.2 p.0
run_refines (pops samples ∷ ops) r v b =
    let p = pop_refines r v samples in
    ap₂ ◌∷◌ p.0 (run_refines ops (pop r samples).1 p.2 b ∙ ap₂ (λ c q. queue_run c q ops) p.3 p.1)
