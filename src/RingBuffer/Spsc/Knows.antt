-- ===== src/RingBuffer/Spsc/Knows.antt =====
-- tg2sip/voip/ring_buffer.h: what each thread knows of the shared members in the midst of a call.
use mathlib.Core.Path.{subst, ap₂}
use tg2sip_webrtc.Prelude.{
  ℕ, zero, suc, ◌+◌, ◌≤◌, ◌<◌, ◌≡◌, refl, sym, ap, ◌∙◌, List, [], ◌∷◌, ◌++◌, get_or, take, length,
  arith, nat_eq,
}
use tg2sip_webrtc.RingBuffer.{RingBuffer, Sample, silence, slot, used}
use tg2sip_webrtc.RingBuffer.Inv.{IsValid, contents}
use tg2sip_webrtc.RingBuffer.Spsc.{Producer, Consumer, System, distance}

-- The first `n` samples of the input stand in the slots behind the head.
abbrev pub Copies : RingBuffer → List Sample → ℕ → Type 0
Copies r input n =
    (k : ℕ) → k < n → get_or r.buffer (slot r.capacity r.head k) silence ≡ get_or input k silence

-- What the producer knows of the shared members. `i` slots behind the head hold the input's samples.
pub data ProducerKnows (r : RingBuffer) : Producer → Type 0 where
  nothing : ProducerKnows r Producer.idle
  knows_head :
      {input : List Sample} {samples head : ℕ}
      → head ≡ r.head
      → samples ≤ length input
      → ProducerKnows r (Producer.loaded_head input samples head)
  has_room :
      {input : List Sample} {count head i : ℕ}
      → head ≡ r.head
      → count ≤ length input
      → i ≤ count
      → used r + count < r.capacity
      → Copies r input i
      → ProducerKnows r (Producer.copying input count head i)

-- What the consumer knows of them: samples that it may take are there, and it has read the first.
pub data ConsumerKnows (r : RingBuffer) : Consumer → Type 0 where
  nothing : ConsumerKnows r Consumer.idle
  saw_head :
      {samples head : ℕ}
      → distance r.capacity head r.tail ≤ used r
      → ConsumerKnows r (Consumer.loaded_head samples head)
  has_samples :
      {samples tail to_copy : ℕ} {output : List Sample}
      → tail ≡ r.tail
      → to_copy ≤ used r
      → length output ≤ to_copy
      → output ≡ take (length output) (contents r)
      → ConsumerKnows r (Consumer.copying samples tail to_copy output)

pub record IsFifo (s : System) : Type 0 where
  pub valid : IsValid s.shared
  pub fifo : s.appended ≡ s.taken ++ contents s.shared
  pub producer : ProducerKnows s.shared s.producer
  pub consumer : ConsumerKnows s.shared s.consumer

take-prefix : (k : ℕ) (xs ys : List Sample) → k ≤ length xs → take k xs ≡ take k (xs ++ ys)
take-prefix zero xs ys h = refl
take-prefix (suc k) [] ys h = elim h [ ]
take-prefix (suc k) (x ∷ xs) ys h = ap (λ zs. x ∷ zs) (take-prefix k xs ys (omega arith))

-- What the consumer knows survives a change of the buffer that keeps the waiting samples as the first.
pub ConsumerKnows-more :
    (r t : RingBuffer) (c : Consumer) (more : List Sample)
    → t.capacity ≡ r.capacity
    → t.tail ≡ r.tail
    → used r ≤ used t
    → contents t ≡ contents r ++ more
    → length (contents r) ≡ used r
    → ConsumerKnows r c
    → ConsumerKnows t c
ConsumerKnows-more r t Consumer.idle more same_capacity same_tail grows contains len nothing =
    nothing
ConsumerKnows-more r t (Consumer.loaded_head samples head) more same_capacity same_tail grows
      contains len (saw_head h) =
    saw_head (
      subst (λ d. d ≤ used t) (ap₂ (λ c u. distance c head u) (sym same_capacity) (sym same_tail))
        (omega arith))
ConsumerKnows-more r t (Consumer.copying samples tail n output) more same_capacity same_tail grows
      contains len (has_samples e h l o) =
    has_samples (e ∙ sym same_tail) (omega arith) l (
      o
      ∙ take-prefix (length output) (contents r) more (omega arith)
      ∙ sym (ap (take (length output)) contains))
