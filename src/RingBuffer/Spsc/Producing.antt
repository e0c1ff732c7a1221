-- ===== src/RingBuffer/Spsc/Producing.antt =====
-- tg2sip/voip/ring_buffer.h: the accesses of `push`, each between any two of the consumer's.

use native.Mathlib.Decide.{dec_lt}
use tg2sip_webrtc.Prelude.{
  ℕ, ◌+◌, ◌%◌, ◌≤◌, ◌<◌, ◌≡◌, refl, sym, ap, ◌∙◌, List, [], ◌++◌, append_assoc, append-nil, get_or,
  set, take, length, arith, Bool-cases, inl, inr, ltb, ltb→lt, ◌==◌, nat_eq,
}
use tg2sip_webrtc.RingBuffer.{RingBuffer, Sample, silence, slot, used, add_size}
use tg2sip_webrtc.RingBuffer.Copy.{get_or-set_self, get_or-set_ne, slot_ne, slot_lt}
use tg2sip_webrtc.RingBuffer.Inv.{IsValid, contents}
use tg2sip_webrtc.RingBuffer.Refine.{used_lt, length-contents}
use tg2sip_webrtc.RingBuffer.Spsc.{Producer, System, push_count, start_push, move_producer}
use tg2sip_webrtc.RingBuffer.Spsc.Memory.{
  written, written-IsValid, contents-written, published, published-IsValid, contents-published,
  used-published,
}
use tg2sip_webrtc.RingBuffer.Spsc.Knows.{
  Copies, ProducerKnows, IsFifo, ConsumerKnows-more, knows_head, has_room,
}

pub start_push-IsFifo :
    (input : List Sample) (samples : ℕ) (p : Producer) (s : System)
    → samples ≤ length input
    → IsFifo s
    → IsFifo (start_push input samples p s)
unfolding start_push
start_push-IsFifo input samples Producer.idle s enough h = record {
  valid = h.valid;
  fifo = h.fifo;
  producer = knows_head refl enough;
  consumer = h.consumer;
}
start_push-IsFifo input samples (Producer.loaded_head _ _ _) s enough h = h
start_push-IsFifo input samples (Producer.copying _ _ _ _) s enough h = h

push_count_lem :
    (r : RingBuffer) (v : IsValid r) (samples : ℕ)
    → (push_count r.capacity r.head r.tail samples ≤ samples)
      × (used r + push_count r.capacity r.head r.tail samples < r.capacity)
push_count_lem r v samples = (ground arith, ground (arith, used_lt r v, v.small))

Copies-written :
    (r : RingBuffer) (v : IsValid r) (input : List Sample) (i : ℕ) (free : used r + i < r.capacity)
    → Copies r input i
    → Copies (written r v i (get_or input i silence) free) input (i + 1)
Copies-written r v input i free copied k h = elim (dec_lt k i) [
  | yes before ↦
      get_or-set_ne r.buffer (slot r.capacity r.head i) (slot r.capacity r.head k)
        (get_or input i silence) silence
        (slot_ne r.capacity r.head i k v.small v.head_in (omega arith) (omega arith) (omega arith))
      ∙ copied k before
  | no now ↦
      let e : i ≡ k = omega arith in
      rw (← e) (
        get_or-set_self r.buffer (slot r.capacity r.head i) (get_or input i silence) silence
          (omega (arith, slot_lt r.capacity r.head i, v.full)))
]

-- The producer's loop.
write-IsFifo :
    (input : List Sample) (count i : ℕ) (s : System)
    → i < count
    → count ≤ length input
    → used s.shared + count < s.shared.capacity
    → Copies s.shared input i
    → IsFifo s
    → IsFifo (record s {
      shared = record s.shared {
        buffer =
            set s.shared.buffer (slot s.shared.capacity s.shared.head i) (get_or input i silence);
      };
      producer = Producer.copying input count s.shared.head (i + 1);
    })
write-IsFifo input count i s here enough room copied h =
    let r = s.shared in
    let x = get_or input i silence in
    let same = contents-written r h.valid i x (omega arith) in
    record {
      valid = written-IsValid r h.valid i x (omega arith);
      fifo = h.fifo ∙ ap (λ ys. s.taken ++ ys) (sym same);
      producer =
          has_room {i = i + 1} refl enough (omega arith) room
            (Copies-written r h.valid input i (omega arith) copied);
      consumer =
          ConsumerKnows-more r (written r h.valid i x (omega arith)) s.consumer [] refl refl
            (omega arith) (same ∙ sym (append-nil (contents r))) (length-contents r h.valid)
            h.consumer;
    }

-- The producer's store of `head_`.
publish-IsFifo :
    (input : List Sample) (count : ℕ) (s : System)
    → count ≤ length input
    → used s.shared + count < s.shared.capacity
    → Copies s.shared input count
    → IsFifo s
    → IsFifo (record s {
      shared = record s.shared { head = add_size s.shared.head count % s.shared.capacity };
      producer = Producer.idle;
      appended = s.appended ++ take count input;
    })
publish-IsFifo input count s enough room copied h =
    let r = s.shared in
    let more = contents-published r h.valid input count room copied enough in
    record {
      valid = published-IsValid r h.valid input count room copied;
      fifo =
          ap (λ ys. ys ++ take count input) h.fifo
          ∙ append_assoc s.taken (contents r) (take count input)
          ∙ ap (λ ys. s.taken ++ ys) (sym more);
      producer = ProducerKnows.nothing;
      consumer =
          ConsumerKnows-more r (published r h.valid input count room copied) s.consumer
            (take count input) refl refl
            (omega (arith, used-published r h.valid input count room copied)) more
            (length-contents r h.valid) h.consumer;
    }

-- The producer's load of `tail_`.
load_tail-IsFifo :
    (input : List Sample) (samples : ℕ) (s : System)
    → samples ≤ length input
    → IsFifo s
    → IsFifo (move_producer (Producer.loaded_head input samples s.shared.head) s)
unfolding move_producer
load_tail-IsFifo input samples s enough h =
    let r = s.shared in
    let (cut, room) = push_count_lem r h.valid samples in
    elim (Bool-cases (push_count r.capacity r.head r.tail samples == 0)) [
      | inl none ↦
          rw (none, move_producer)
            (record {
              valid = h.valid;
              fifo = h.fifo;
              producer = ProducerKnows.nothing;
              consumer = h.consumer;
            })
      | inr some ↦
          rw (some, move_producer)
            (record {
              valid = h.valid;
              fifo = h.fifo;
              producer =
                  has_room {i = 0} refl (omega arith) (omega arith) room (λ k lt. elim lt [ ]);
              consumer = h.consumer;
            })
    ]

pub move_producer-IsFifo :
    (p : Producer) (s : System) → ProducerKnows s.shared p → IsFifo s → IsFifo (move_producer p s)
unfolding move_producer
move_producer-IsFifo Producer.idle s k h = h
move_producer-IsFifo (Producer.loaded_head input samples head) s (knows_head e enough) h =
    rw e (load_tail-IsFifo input samples s enough h)
move_producer-IsFifo (Producer.copying input count head i) s (has_room e enough here room copied)
      h =
    elim (Bool-cases (ltb i count)) [
      | inl more ↦
          rw (more, e, move_producer)
            (write-IsFifo input count i s (ltb→lt i count more) enough room copied h)
      | inr all ↦
          rw (all, e, move_producer)
            (publish-IsFifo input count s enough room (λ k lt. copied k (ground (arith, all, lt)))
              h)
    ]
