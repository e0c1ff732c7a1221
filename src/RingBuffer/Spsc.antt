-- ===== src/RingBuffer/Spsc.antt =====
-- tg2sip/voip/ring_buffer.h: `push` on the producer's thread and `pop` on the consumer's, interleaved
-- at each access to the shared members. The accesses are taken in one order: the release of an index
-- orders the samples before it for the thread that acquires the index.
pub mod Memory
pub mod Knows
pub mod Producing
pub mod Consuming
pub mod Fifo
pub mod WaitFree
mod Tests
use tg2sip_webrtc.Prelude.{
  ℕ, zero, suc, ◌+◌, ◌-◌, ◌%◌, List, [], ◌∷◌, ◌++◌, ltb, ◌==◌, nat_eq, if◌then◌else◌, get_or, set,
  length, take, replicate,
}
use tg2sip_webrtc.RingBuffer.{RingBuffer, Sample, silence, init, slot, add_size, sub_size}

-- Where the producer stands in `push`, with its local variables; `i` is the loop's.
pub data Producer : Type 0 where
  idle : Producer
  loaded_head : (input : List Sample) (samples head : ℕ) → Producer
  copying : (input : List Sample) (count head i : ℕ) → Producer

-- Where the consumer stands in `pop`; `output` is what the loop has written to the caller's array.
pub data Consumer : Type 0 where
  idle : Consumer
  loaded_head : (samples head : ℕ) → Consumer
  copying : (samples tail to_copy : ℕ) (output : List Sample) → Consumer

-- `appended` and `taken` are the samples that have gone in and out, and `returned` what each `pop`
-- has handed to its caller, the newest first.
pub record System : Type 0 where
  pub shared : RingBuffer
  pub producer : Producer
  pub consumer : Consumer
  pub appended : List Sample
  pub taken : List Sample
  pub returned : List (List Sample)

abbrev pub idle_system : RingBuffer → System
idle_system r = record {
  shared = r;
  producer = Producer.idle;
  consumer = Consumer.idle;
  appended = [];
  taken = [];
  returned = [];
}

-- `(head - tail + capacity_) % capacity_`
abbrev pub distance : ℕ → ℕ → ℕ → ℕ
distance capacity head tail = add_size (sub_size head tail) capacity % capacity

-- The count of `push` for the indices that it has loaded.
abbrev pub push_count : ℕ → ℕ → ℕ → ℕ → ℕ
push_count capacity head tail samples =
    let available = sub_size (sub_size capacity 1) (distance capacity head tail) in
    if ltb available samples then available else samples

abbrev pub pop_count : ℕ → ℕ → ℕ → ℕ → ℕ
pop_count capacity head tail samples =
    let available = distance capacity head tail in
    if ltb samples available then samples else available

-- `push` is called, by a producer that is in no call: it loads `head_`.
unfoldable pub start_push : List Sample → ℕ → Producer → System → System
start_push input samples Producer.idle s = record s {
  producer = Producer.loaded_head input samples s.shared.head;
}
start_push input samples p s = s

-- The next access of `push`: the load of `tail_`, a sample, or the store of `head_`.
unfoldable pub move_producer : Producer → System → System
move_producer Producer.idle s = s
move_producer (Producer.loaded_head input samples head) s =
    let count = push_count s.shared.capacity head s.shared.tail samples in
    record s {
      producer = if count == 0 then Producer.idle else Producer.copying input count head 0;
    }
move_producer (Producer.copying input count head i) s =
    if ltb i count
    then record s {
      shared = record s.shared {
        buffer = set s.shared.buffer (slot s.shared.capacity head i) (get_or input i silence);
      };
      producer = Producer.copying input count head (i + 1);
    }
    else record s {
      shared = record s.shared { head = add_size head count % s.shared.capacity };
      producer = Producer.idle;
      appended = s.appended ++ take count input;
    }

-- `pop` is called, by a consumer that is in no call: it loads `head_`.
unfoldable pub start_pop : ℕ → Consumer → System → System
start_pop samples Consumer.idle s = record s {
  consumer = Consumer.loaded_head samples s.shared.head;
}
start_pop samples c s = s

-- The next access of `pop`: the load of `tail_`, a sample, or the store of `tail_`.
unfoldable pub move_consumer : Consumer → System → System
move_consumer Consumer.idle s = s
move_consumer (Consumer.loaded_head samples head) s =
    let tail = s.shared.tail in
    record s {
      consumer = Consumer.copying samples tail (pop_count s.shared.capacity head tail samples) [];
    }
move_consumer (Consumer.copying samples tail to_copy output) s =
    if ltb (length output) to_copy
    then record s {
      consumer = Consumer.copying samples tail to_copy (
          output
          ++ get_or s.shared.buffer (slot s.shared.capacity tail (length output)) silence ∷ []);
    }
    else record s {
      shared = record s.shared { tail = add_size tail to_copy % s.shared.capacity };
      consumer = Consumer.idle;
      taken = s.taken ++ output;
      returned = (output ++ replicate (samples - to_copy) silence) ∷ s.returned;
    }

pub data Move : Type 0 where
  calls_push : List Sample → ℕ → Move
  pushes_on : Move
  calls_pop : ℕ → Move
  pops_on : Move

unfoldable pub move : Move → System → System
unfolding start_push move_producer start_pop move_consumer
move (calls_push input samples) s = start_push input samples s.producer s
move pushes_on s = move_producer s.producer s
move (calls_pop samples) s = start_pop samples s.consumer s
move pops_on s = move_consumer s.consumer s

-- Any interleaving of the two threads.
unfoldable pub run : List Move → System → System
unfolding move
run [] s = s
run (m ∷ ms) s = run ms (move m s)
