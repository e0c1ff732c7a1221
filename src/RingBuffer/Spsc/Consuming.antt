-- ===== src/RingBuffer/Spsc/Consuming.antt =====
-- tg2sip/voip/ring_buffer.h: the accesses of `pop`, each between any two of the producer's.
use mathlib.Core.Path.{ap₂}
use tg2sip_webrtc.Prelude.{
  ℕ, ◌+◌, ◌-◌, ◌%◌, ◌≤◌, ◌<◌, ◌≡◌, refl, sym, ap, ◌∙◌, List, [], ◌∷◌, ◌++◌, append_assoc, take,
  length, length-append, take-append-drop, replicate, arith, Bool-cases, inl, inr, ltb, ltb→lt,
  nat_eq,
}
use tg2sip_webrtc.RingBuffer.{RingBuffer, Sample, silence, used, add_size}
use tg2sip_webrtc.RingBuffer.Inv.{IsValid, contents}
use tg2sip_webrtc.RingBuffer.Refine.{read}
use tg2sip_webrtc.RingBuffer.Spsc.{
  Producer, Consumer, System, distance, pop_count, start_pop, move_consumer,
}
use tg2sip_webrtc.RingBuffer.Spsc.Memory.{
  released, released-IsValid, contents-released, used-released, take-read,
}
use tg2sip_webrtc.RingBuffer.Spsc.Knows.{
  ProducerKnows, ConsumerKnows, IsFifo, knows_head, has_room, saw_head, has_samples,
}

pub start_pop-IsFifo :
    (samples : ℕ) (c : Consumer) (s : System) → IsFifo s → IsFifo (start_pop samples c s)
unfolding start_pop
start_pop-IsFifo samples Consumer.idle s h = record {
  valid = h.valid;
  fifo = h.fifo;
  producer = h.producer;
  consumer = saw_head (omega arith);
}
start_pop-IsFifo samples (Consumer.loaded_head _ _) s h = h
start_pop-IsFifo samples (Consumer.copying _ _ _ _) s h = h

pop_count_lem :
    (capacity head tail samples : ℕ)
    → pop_count capacity head tail samples ≤ distance capacity head tail
pop_count_lem capacity head tail samples = ground arith

-- The consumer's loop.
read-IsFifo :
    (samples n : ℕ) (output : List Sample) (s : System)
    → length output < n
    → n ≤ used s.shared
    → output ≡ take (length output) (contents s.shared)
    → IsFifo s
    → IsFifo (record s {
      consumer =
          Consumer.copying samples s.shared.tail n (output ++ read s.shared (length output) ∷ []);
    })
read-IsFifo samples n output s more there same h =
    let r = s.shared in
    let len : length (output ++ read r (length output) ∷ []) ≡ length output + 1 =
      length-append output (read r (length output) ∷ []) in
    record {
      valid = h.valid;
      fifo = h.fifo;
      producer = h.producer;
      consumer = has_samples refl there (omega arith) (
          ap (λ ys. ys ++ read r (length output) ∷ []) same
          ∙ sym (take-read r h.valid (length output) (omega arith))
          ∙ ap (λ k. take k (contents r)) (sym len));
    }

-- What the producer knows survives the store of `tail_`.
ProducerKnows-released :
    (r : RingBuffer) (v : IsValid r) (n : ℕ) (there : n ≤ used r) (p : Producer)
    → ProducerKnows r p
    → ProducerKnows (released r v n there) p
ProducerKnows-released r v n there Producer.idle ProducerKnows.nothing = ProducerKnows.nothing
ProducerKnows-released r v n there (Producer.loaded_head _ _ _) (knows_head e enough) =
    knows_head e enough
ProducerKnows-released r v n there (Producer.copying _ _ _ _) (has_room e enough here room copied) =
    has_room e enough here (omega (arith, used-released r v n there)) copied

-- The consumer's store of `tail_`.
release-IsFifo :
    (samples n : ℕ) (output : List Sample) (s : System)
    → n ≤ used s.shared
    → length output ≡ n
    → output ≡ take (length output) (contents s.shared)
    → IsFifo s
    → IsFifo (record s {
      shared = record s.shared { tail = add_size s.shared.tail n % s.shared.capacity };
      consumer = Consumer.idle;
      taken = s.taken ++ output;
      returned = (output ++ replicate (samples - n) silence) ∷ s.returned;
    })
release-IsFifo samples n output s there all same h =
    let r = s.shared in
    record {
      valid = released-IsValid r h.valid n there;
      fifo =
          h.fifo
          ∙ ap (λ ys. s.taken ++ ys)
              (sym (take-append-drop n (contents r))
                ∙ ap₂ ◌++◌ (ap (λ k. take k (contents r)) (sym all) ∙ sym same)
                    (sym (contents-released r h.valid n there)))
          ∙ sym (append_assoc s.taken output (contents (released r h.valid n there)));
      producer = ProducerKnows-released r h.valid n there s.producer h.producer;
      consumer = ConsumerKnows.nothing;
    }

pub move_consumer-IsFifo :
    (c : Consumer) (s : System) → ConsumerKnows s.shared c → IsFifo s → IsFifo (move_consumer c s)
unfolding move_consumer
move_consumer-IsFifo Consumer.idle s k h = h
move_consumer-IsFifo (Consumer.loaded_head samples head) s (saw_head seen) h = record {
  valid = h.valid;
  fifo = h.fifo;
  producer = h.producer;
  consumer =
      has_samples refl (omega (arith, pop_count_lem s.shared.capacity head s.shared.tail samples))
        (omega arith) refl;
}
move_consumer-IsFifo (Consumer.copying samples tail n output) s (has_samples e there some same) h =
    elim (Bool-cases (ltb (length output) n)) [
      | inl more ↦
          rw (more, e, move_consumer)
            (read-IsFifo samples n output s (ltb→lt (length output) n more) there same h)
      | inr all ↦
          rw (all, e, move_consumer)
            (release-IsFifo samples n output s there (ground (arith, all)) same h)
    ]
