-- ===== src/RingBuffer/Spsc/Memory.antt =====
-- tg2sip/voip/ring_buffer.h: what a single access does to the samples that wait for the consumer.
use mathlib.Core.Path.{ap₂}
use tg2sip_webrtc.Prelude.{
  ℕ, ◌+◌, ◌-◌, ◌%◌, ◌≤◌, ◌<◌, ◌≡◌, refl, sym, ap, ◌∙◌, List, [], ◌∷◌, ◌++◌, get_or, set, take, drop,
  length, length-set, arith,
}
use tg2sip_webrtc.RingBuffer.{RingBuffer, Sample, silence, slot, used, add_size, fetch}
use tg2sip_webrtc.RingBuffer.Window.{
  window_ext, window-append, window-get_or, take-window, window_at,
}
use tg2sip_webrtc.RingBuffer.Copy.{get_or-set_ne, slot_lt, slot_ne}
use tg2sip_webrtc.RingBuffer.Inv.{
  IsValid, contents, slot-slot, slot-distance, distance_head, distance_tail,
}
use tg2sip_webrtc.RingBuffer.Refine.{read, used_lt, fetch_lem}

module _ (r : RingBuffer) (v : IsValid r) where
  -- The producer's slots lie behind those that hold samples.
  slot-head :
      (m : ℕ)
      → used r + m < r.capacity
      → slot r.capacity r.head m ≡ slot r.capacity r.tail (used r + m)
  slot-head m h =
      ap (λ b. slot r.capacity b m)
        (sym (slot-distance r.capacity r.head r.tail v.small v.head_in v.tail_in))
      ∙ slot-slot r.capacity r.tail v.small v.tail_in (used r) m h

  module _ (i : ℕ) (x : Sample) (free : used r + i < r.capacity) where
    abbrev pub written : RingBuffer
    written = record r { buffer = set r.buffer (slot r.capacity r.head i) x }

    pub written-IsValid : IsValid written
    written-IsValid = record {
      full = length-set r.buffer (slot r.capacity r.head i) x ∙ v.full;
      small = v.small;
      head_in = v.head_in;
      tail_in = v.tail_in;
    }

    -- A sample written by the producer touches none that waits.
    pub contents-written : contents written ≡ contents r
    contents-written = window_ext (read written) (read r) 0 0 (used r) λ k h.
        get_or-set_ne r.buffer (slot r.capacity r.head i) (slot r.capacity r.tail (0 + k)) x silence
          λ e.
            slot_ne r.capacity r.tail (used r + i) (0 + k) v.small v.tail_in (omega arith)
              (omega arith) (omega arith) (sym (slot-head i free) ∙ e)

  -- The store of `head_`, when the slots hold the first `n` samples of the input.
  module _ (input : List Sample) (n : ℕ) (fits : used r + n < r.capacity)
      (copied : (k : ℕ)
        → k < n
        → get_or r.buffer (slot r.capacity r.head k) silence ≡ get_or input k silence) where
    abbrev pub published : RingBuffer
    published = record r { head = add_size r.head n % r.capacity }

    pub used-published : used published ≡ used r + n
    used-published =
        distance_head r.capacity r.head r.tail n v.small v.head_in v.tail_in (used r) refl fits

    pub published-IsValid : IsValid published
    published-IsValid = record {
      full = v.full;
      small = v.small;
      head_in = slot_lt r.capacity r.head n (omega arith);
      tail_in = v.tail_in;
    }

    pub contents-published : n ≤ length input → contents published ≡ contents r ++ take n input
    contents-published enough =
        window_at (read r) {i = 0} refl used-published
        ∙ window-append (read r) 0 (used r) n
        ∙ ap (λ ys. contents r ++ ys)
            (window_ext (read r) (λ j. get_or input j silence) (0 + used r) 0 n
                (λ k h.
                  ap (λ j. get_or r.buffer (slot r.capacity r.tail j) silence) (omega arith)
                  ∙ ap (λ j. get_or r.buffer j silence) (sym (slot-head k (omega arith)))
                  ∙ copied k h
                  ∙ ap (λ j. get_or input j silence) (omega arith))
              ∙ window-get_or input silence n enough)

  -- The store of `tail_`.
  module _ (n : ℕ) (there : n ≤ used r) where
    abbrev pub released : RingBuffer
    released = record r { tail = add_size r.tail n % r.capacity }

    pub released-IsValid : IsValid released
    unfolding fetch
    released-IsValid = (fetch_lem r v n n there).2

    pub contents-released : contents released ≡ drop n (contents r)
    unfolding fetch
    contents-released = (fetch_lem r v n n there).1

    pub used-released : used released ≡ used r - n
    used-released =
        distance_tail r.capacity r.head r.tail n v.small v.head_in v.tail_in (used r) refl
          (used_lt r v) there

  -- The consumer's next sample.
  pub take-read :
      (k : ℕ) → k < used r → take (k + 1) (contents r) ≡ take k (contents r) ++ read r k ∷ []
  take-read k h =
      take-window (read r) 0 (used r) (k + 1)
      ∙ window_at (read r) {i = 0} refl (omega arith)
      ∙ window-append (read r) 0 k 1
      ∙ ap₂ ◌++◌
          (window_at (read r) {i = 0} refl (omega arith) ∙ sym (take-window (read r) 0 (used r) k))
          (ap (λ j. read r j ∷ []) (omega arith))
