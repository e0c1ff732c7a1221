-- ===== src/RingBuffer/Inv.antt =====
-- tg2sip/voip/ring_buffer.h: the representation invariant, and the index arithmetic under it.
use native.Mathlib.Decide.{dec_lt}
use native.Mathlib.Nat.{mod-eq_of_lt, mod-eq-sub-mod, mod-lt}
use tg2sip_webrtc.Prelude.{
  ℕ, ◌+◌, ◌-◌, ◌%◌, ◌^◌, ◌≤◌, ◌<◌, ◌≡◌, length, length-replicate, arith, if◌then◌else◌, ltb, get_or,
  List,
}
use tg2sip_webrtc.RingBuffer.{RingBuffer, Sample, silence, init, slot, used, add_size, sub_size}
use tg2sip_webrtc.RingBuffer.Copy.{slot_cases, slot_lt}
use tg2sip_webrtc.RingBuffer.Window.{window}

pub record IsValid (r : RingBuffer) : Type 0 where
  pub full : length r.buffer ≡ r.capacity
  pub small : r.capacity ≤ 2 ^ 63
  pub head_in : r.head < r.capacity
  pub tail_in : r.tail < r.capacity

-- The samples that wait for the consumer, oldest first.
abbrev pub contents : RingBuffer → List Sample
contents r = window (λ k. get_or r.buffer (slot r.capacity r.tail k) silence) 0 (used r)

pub init-IsValid : (n : ℕ) → 0 < n → n ≤ 2 ^ 63 → IsValid (init n)
unfolding init
init-IsValid n h k = record {
  full = length-replicate n silence;
  small = k;
  head_in = h;
  tail_in = h;
}

module _ (capacity head tail : ℕ) (small : capacity ≤ 2 ^ 63) (hh : head < capacity)
    (ht : tail < capacity) where
  pub distance_cases :
      add_size (sub_size head tail) capacity % capacity
      ≡ (if ltb head tail then head + capacity - tail else head - tail)
  distance_cases = elim (dec_lt head tail) [
    | yes p ↦ ground (arith, mod-eq_of_lt {n = head + capacity - tail} {m = capacity} (omega arith))
    | no p ↦ ground (
      arith,
      mod-eq-sub-mod {n = head - tail + capacity} {m = capacity} (omega arith),
      mod-eq_of_lt {n = head - tail} {m = capacity} (omega arith),
    )
  ]

  -- The consumer's index is `distance` behind the producer's.
  pub slot-distance : slot capacity tail (add_size (sub_size head tail) capacity % capacity) ≡ head
  slot-distance =
      let d = add_size (sub_size head tail) capacity % capacity in
      ground (arith, distance_cases, slot_cases capacity tail d small ht (mod-lt _ (omega arith)))

module _ (capacity base : ℕ) (small : capacity ≤ 2 ^ 63) (hb : base < capacity) where
  pub slot-slot :
      (i j : ℕ)
      → i + j < capacity
      → slot capacity (slot capacity base i) j ≡ slot capacity base (i + j)
  slot-slot i j h = ground (
    arith,
    slot_cases capacity base i small hb (omega arith),
    slot_cases capacity base (i + j) small hb h,
    slot_cases capacity (slot capacity base i) j small (slot_lt capacity base i (omega arith))
        (omega arith),
  )

-- The producer's index moved on by `n` leaves `n` samples more.
pub distance_head :
    (capacity head tail n : ℕ)
    → capacity ≤ 2 ^ 63
    → head < capacity
    → tail < capacity
    → (d : ℕ) → add_size (sub_size head tail) capacity % capacity ≡ d
    → d + n < capacity
    → add_size (sub_size (slot capacity head n) tail) capacity % capacity ≡ d + n
distance_head capacity head tail n small hh ht d e h = ground (
  arith,
  distance_cases capacity head tail small hh ht,
  slot_cases capacity head n small hh (omega arith),
  distance_cases capacity (slot capacity head n) tail small (slot_lt capacity head n (omega arith))
      ht,
)

-- The consumer's index moved on by `n` leaves `n` samples fewer.
pub distance_tail :
    (capacity head tail n : ℕ)
    → capacity ≤ 2 ^ 63
    → head < capacity
    → tail < capacity
    → (d : ℕ) → add_size (sub_size head tail) capacity % capacity ≡ d
    → d < capacity
    → n ≤ d
    → add_size (sub_size head (slot capacity tail n)) capacity % capacity ≡ d - n
distance_tail capacity head tail n small hh ht d e lt h = ground (
  arith,
  distance_cases capacity head tail small hh ht,
  slot_cases capacity tail n small ht (omega arith),
  distance_cases capacity head (slot capacity tail n) small hh
      (slot_lt capacity tail n (omega arith)),
)
