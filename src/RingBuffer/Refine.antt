-- ===== src/RingBuffer/Refine.antt =====
-- tg2sip/voip/ring_buffer.h: `push` and `pop` against the samples that the buffer holds.
use mathlib.Core.Path.{ap₂}
use native.Mathlib.Nat.{mod-lt}
use tg2sip_webrtc.Prelude.{
  ℕ, ◌+◌, ◌-◌, ◌%◌, ◌≤◌, ◌<◌, min, ◌≡◌, refl, sym, ap, ◌∙◌, List, ◌++◌, append-nil, get_or, take,
  drop, length, replicate, arith, if◌then◌else◌, ltb, Bool-cases, inl, inr, ◌==◌, ==_iff, nat_eq,
}
use tg2sip_webrtc.RingBuffer.{
  RingBuffer, Sample, silence, slot, used, add_size, sub_size, copy_in, store, push, fetch, pop,
}
use tg2sip_webrtc.RingBuffer.Window.{
  window_ext, window-append, window-get_or, take-window, drop-window, length-window, window_at,
  take-min, drop-min,
}
use tg2sip_webrtc.RingBuffer.Copy.{
  length-copy_in, copy_out-window, copy_in_miss, copy_in_hit, slot_lt, slot_ne,
}
use tg2sip_webrtc.RingBuffer.Inv.{
  IsValid, contents, slot-slot, slot-distance, distance_head, distance_tail,
}

-- The sample at position `k` behind the tail.
abbrev pub read : RingBuffer → ℕ → Sample
read r k = get_or r.buffer (slot r.capacity r.tail k) silence

module _ (r : RingBuffer) (v : IsValid r) where
  pub used_lt : used r < r.capacity
  used_lt = mod-lt _ (omega (arith, v.head_in))

  pub length-contents : length (contents r) ≡ used r
  length-contents = length-window _ 0 (used r)

  -- `push` once the count is known.
  module _ (input : List Sample) (n : ℕ) (fits : used r + n < r.capacity) where
    abbrev pushed : RingBuffer
    pushed = record r {
      buffer = copy_in r.buffer r.capacity r.head input 0 n;
      head = add_size r.head n % r.capacity;
    }

    pushed-IsValid : IsValid pushed
    pushed-IsValid = record {
      full = length-copy_in r.buffer r.capacity r.head input 0 n ∙ v.full;
      small = v.small;
      head_in = slot_lt r.capacity r.head n (omega arith);
      tail_in = v.tail_in;
    }

    used-pushed : used pushed ≡ used r + n
    used-pushed =
        distance_head r.capacity r.head r.tail n v.small v.head_in v.tail_in (used r) refl fits

    slot-head : (m : ℕ) → m < n → slot r.capacity r.head m ≡ slot r.capacity r.tail (used r + m)
    slot-head m h =
        ap (λ b. slot r.capacity b m)
          (sym (slot-distance r.capacity r.head r.tail v.small v.head_in v.tail_in))
        ∙ slot-slot r.capacity r.tail v.small v.tail_in (used r) m (omega arith)

    old : (k : ℕ) → k < used r → read pushed (0 + k) ≡ read r (0 + k)
    old k h =
        copy_in_miss r.capacity r.head input v.small v.head_in r.buffer 0 n
          (slot r.capacity r.tail (0 + k))
          (λ m p q e.
            slot_ne r.capacity r.tail (used r + m) (0 + k) v.small v.tail_in (omega arith)
              (omega arith) (omega arith) (sym (slot-head m (omega arith)) ∙ e))

    new : (k : ℕ) → k < n → read pushed (used r + k) ≡ get_or input (0 + k) silence
    new k h =
        ap (λ j. get_or pushed.buffer j silence) (sym (slot-head k h))
        ∙ copy_in_hit r.capacity r.head input v.small v.head_in r.buffer 0 n k v.full (omega arith)
            (omega arith) (omega arith)
        ∙ ap (λ j. get_or input j silence) (omega arith)

    contents-pushed : n ≤ length input → contents pushed ≡ contents r ++ take n input
    contents-pushed enough =
        window_at (read pushed) {i = 0} refl used-pushed
        ∙ window-append (read pushed) 0 (used r) n
        ∙ ap₂ ◌++◌ (window_ext (read pushed) (read r) 0 0 (used r) old) (
            window_at (read pushed) {n = n} (omega arith) refl
            ∙ window_ext (read pushed) (λ j. get_or input j silence) (used r) 0 n new
            ∙ window-get_or input silence n enough)

    store_lem :
        n ≤ length input
        → (contents (store r input n) ≡ contents r ++ take n input)
          × IsValid (store r input n)
          × ((store r input n).capacity ≡ r.capacity)
    unfolding store
    store_lem enough = elim (Bool-cases (n == 0)) [
      | inl e ↦ rw (e, (==_iff n 0).0 e) (sym (append-nil (contents r)), v, refl)
      | inr e ↦ rw e (contents-pushed enough, pushed-IsValid, refl)
    ]

  -- A `push` of `samples` samples appends those that fit below `capacity - 1` held samples, in
  -- order, drops the others, and keeps the invariant.
  pub push_refines :
      (input : List Sample) (samples : ℕ)
      → samples ≤ length input
      → (contents (push r input samples)
          ≡ contents r ++ take (min samples (r.capacity - 1 - length (contents r))) input)
        × IsValid (push r input samples)
        × ((push r input samples).capacity ≡ r.capacity)
  unfolding push
  push_refines input samples enough =
      rw (length-contents, count)
        (store_lem input (min samples (r.capacity - 1 - used r)) (omega (arith, used_lt))
          (omega arith))
    where
      count :
          (if ltb (sub_size (sub_size r.capacity 1) (used r)) samples
            then sub_size (sub_size r.capacity 1) (used r)
            else samples)
          ≡ min samples (r.capacity - 1 - used r)
      count = ground (arith, used_lt)

  -- `pop` once the count is known.
  pub fetch_lem :
      (samples n : ℕ)
      → n ≤ used r
      → ((fetch r samples n).0 ≡ take n (contents r) ++ replicate (samples - n) silence)
        × (contents (fetch r samples n).1 ≡ drop n (contents r))
        × IsValid (fetch r samples n).1
        × ((fetch r samples n).1.capacity ≡ r.capacity)
  unfolding fetch
  fetch_lem samples n h = (
    ap (λ ys. ys ++ replicate (samples - n) silence)
        (copy_out-window r.buffer r.capacity r.tail 0 n
          ∙ window_at (read r) {i = 0} refl (omega arith)
          ∙ sym (take-window (read r) 0 (used r) n)),
    window_at (read (record r { tail = add_size r.tail n % r.capacity })) {i = 0} refl (
          distance_tail r.capacity r.head r.tail n v.small v.head_in v.tail_in (used r) refl used_lt
            h)
        ∙ window_ext (read (record r { tail = add_size r.tail n % r.capacity })) (read r) 0 (0 + n)
            (used r - n)
            (λ k p.
              ap (λ j. get_or r.buffer j silence)
                (slot-slot r.capacity r.tail v.small v.tail_in n (0 + k) (omega (arith, used_lt))
                  ∙ ap (slot r.capacity r.tail) (omega arith)))
        ∙ sym (drop-window (read r) 0 (used r) n),
    record {
      full = v.full;
      small = v.small;
      head_in = v.head_in;
      tail_in = slot_lt r.capacity r.tail n (omega (arith, v.head_in));
    },
    refl,
  )

  -- A `pop` of `samples` samples returns the oldest ones, padded with silence to exactly that
  -- many, removes them, and keeps the invariant.
  pub pop_refines :
      (samples : ℕ)
      → ((pop r samples).0
          ≡ take samples (contents r) ++ replicate (samples - length (contents r)) silence)
        × (contents (pop r samples).1 ≡ drop samples (contents r))
        × IsValid (pop r samples).1
        × ((pop r samples).1.capacity ≡ r.capacity)
  unfolding pop
  pop_refines samples = rw count (
      let f = fetch_lem samples m (omega (arith, length-contents)) in
      (
        f.0
            ∙ ap₂ ◌++◌ (take-min samples (contents r))
                (ap (λ k. replicate k silence) (omega (arith, length-contents))),
        f.1 ∙ drop-min samples (contents r),
        f.2,
        f.3,
      ))
    where
      m : ℕ
      m = min samples (length (contents r))

      count : (if ltb samples (used r) then samples else used r) ≡ m
      count = ground (arith, length-contents)
