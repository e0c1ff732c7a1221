-- ===== src/RingBuffer.antt =====
-- tg2sip/voip/ring_buffer.h: the PCM ring buffer between PJSIP's media thread and the calling
-- backend, as `RingBuffer` with `push` and `pop`. `size_t` is 64 bits wide and wraps.
pub mod Window
pub mod Copy
pub mod Inv
pub mod Refine
pub mod Queue
pub mod Spsc
mod Tests
use tg2sip_webrtc.Prelude.{
  ℕ, zero, suc, ◌+◌, ◌-◌, ◌%◌, ◌^◌, List, [], ◌∷◌, ◌++◌, ℤ, pos, ltb, ◌==◌, nat_eq, if◌then◌else◌,
  get_or, set, replicate,
}

-- `int16_t` samples are moved only.
abbrev pub Sample : Type 0
Sample = ℤ

abbrev pub silence : Sample
silence = pos 0

abbrev pub add_size : ℕ → ℕ → ℕ
add_size a b = (a + b) % 2 ^ 64

abbrev pub sub_size : ℕ → ℕ → ℕ
sub_size a b = (a + 2 ^ 64 - b) % 2 ^ 64

pub record RingBuffer : Type 0 where
  pub capacity : ℕ
  pub buffer : List Sample
  pub head : ℕ
  pub tail : ℕ

pub init : ℕ → RingBuffer
init capacity_samples = record {
  capacity = capacity_samples;
  buffer = replicate capacity_samples silence;
  head = 0;
  tail = 0;
}

-- The array index of the sample that lies `i` behind `base`.
abbrev pub slot : ℕ → ℕ → ℕ → ℕ
slot capacity base i = add_size base i % capacity

-- `(head - tail + capacity_) % capacity_`
abbrev pub used : RingBuffer → ℕ
used r = add_size (sub_size r.head r.tail) r.capacity % r.capacity

-- The loop of `push`: rounds `i`, `i + 1`, … of which `n` are left.
pub copy_in : List Sample → ℕ → ℕ → List Sample → ℕ → ℕ → List Sample
copy_in buffer capacity head samples i zero = buffer
copy_in buffer capacity head samples i (suc n) =
    copy_in (set buffer (slot capacity head i) (get_or samples i silence)) capacity head samples
      (i + 1) n

-- `push` from the point where `samples` is cut down to `count`.
pub store : RingBuffer → List Sample → ℕ → RingBuffer
store r input count = if count == 0 then r else record r {
  buffer = copy_in r.buffer r.capacity r.head input 0 count;
  head = add_size r.head count % r.capacity;
}

-- What does not fit is dropped. `samples` is the count, `input` the caller's array.
pub push : RingBuffer → List Sample → ℕ → RingBuffer
push r input samples =
    let available = sub_size (sub_size r.capacity 1) (used r) in
    store r input (if ltb available samples then available else samples)

-- The loop of `pop` that reads the buffer.
pub copy_out : List Sample → ℕ → ℕ → ℕ → ℕ → List Sample
copy_out buffer capacity tail i zero = []
copy_out buffer capacity tail i (suc n) =
    get_or buffer (slot capacity tail i) silence ∷ copy_out buffer capacity tail (i + 1) n

-- `pop` from the point where `to_copy` is known.
pub fetch : RingBuffer → ℕ → ℕ → List Sample × RingBuffer
fetch r samples to_copy = (
  copy_out r.buffer r.capacity r.tail 0 to_copy ++ replicate (samples - to_copy) silence,
  record r { tail = add_size r.tail to_copy % r.capacity },
)

-- The samples that reach the caller's array (padded with silence), and the buffer afterwards.
pub pop : RingBuffer → ℕ → List Sample × RingBuffer
pop r samples =
    let available = used r in fetch r samples (if ltb samples available then samples else available)
