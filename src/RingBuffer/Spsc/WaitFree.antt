-- ===== src/RingBuffer/Spsc/WaitFree.antt =====
-- tg2sip/voip/ring_buffer.h: a call of `push` or `pop` ends after a bounded number of its own
-- accesses, whatever the other thread does.
use tg2sip_webrtc.Prelude.{
  ℕ, ◌+◌, ◌-◌, ◌≤◌, ◌≡◌, ◌⊎◌, refl, ap, List, [], ◌∷◌, ◌++◌, length, length-append, arith,
  Bool-cases, inl, inr, ltb, ltb→lt, nat_eq,
}
use tg2sip_webrtc.RingBuffer.{Sample}
use tg2sip_webrtc.RingBuffer.Spsc.{
  Producer, Consumer, System, start_push, move_producer, start_pop, move_consumer, Move, calls_push,
  pushes_on, calls_pop, pops_on, move, run,
}

-- The accesses that a call has before it, at most.
abbrev push_left : Producer → ℕ
push_left Producer.idle = 0
push_left (Producer.loaded_head input samples head) = samples + 2
push_left (Producer.copying input count head i) = count - i + 1

abbrev pop_left : Consumer → ℕ
pop_left Consumer.idle = 0
pop_left (Consumer.loaded_head samples head) = samples + 2
pop_left (Consumer.copying samples tail n output) = n - length output + 1

-- The accesses of the producer, and of the consumer, that a run has.
abbrev pub pushes : Move → ℕ
pushes pushes_on = 1
pushes m = 0

abbrev pushing : List Move → ℕ
pushing [] = 0
pushing (m ∷ ms) = pushes m + pushing ms

abbrev pub pops : Move → ℕ
pops pops_on = 1
pops m = 0

abbrev popping : List Move → ℕ
popping [] = 0
popping (m ∷ ms) = pops m + popping ms

-- A thread is in no call, or its next access leaves it fewer, and it starts no other call.
abbrev PushProgress : Producer → System → Type 0
PushProgress p s =
    (p ≡ Producer.idle)
    ⊎ ((push_left (move_producer p s).producer + 1 ≤ push_left p)
        × ((input : List Sample) (samples : ℕ) → start_push input samples p s ≡ s))

abbrev PopProgress : Consumer → System → Type 0
PopProgress c s =
    (c ≡ Consumer.idle)
    ⊎ ((pop_left (move_consumer c s).consumer + 1 ≤ pop_left c)
        × ((samples : ℕ) → start_pop samples c s ≡ s))

push-progress : (p : Producer) (s : System) → PushProgress p s
unfolding move_producer start_push
push-progress Producer.idle s = inl refl
push-progress (Producer.loaded_head input samples head) s =
    inr (ground arith, λ input' samples'. refl)
push-progress (Producer.copying input count head i) s = inr (ground arith, λ input' samples'. refl)

pop-progress : (c : Consumer) (s : System) → PopProgress c s
unfolding move_consumer start_pop
pop-progress Consumer.idle s = inl refl
pop-progress (Consumer.loaded_head samples head) s = inr (ground arith, λ samples'. refl)
pop-progress (Consumer.copying samples tail n output) s = inr (
  elim (Bool-cases (ltb (length output) n)) [
    | inl more ↦
        rw (more, move_consumer)
          (omega (arith, ltb→lt (length output) n more, length-append output))
    | inr all ↦ rw (all, move_consumer) (omega arith)
  ],
  λ samples'. refl,
)

producer-move_consumer : (c : Consumer) (s : System) → (move_consumer c s).producer ≡ s.producer
unfolding move_consumer
producer-move_consumer Consumer.idle s = refl
producer-move_consumer (Consumer.loaded_head samples head) s = refl
producer-move_consumer (Consumer.copying samples tail n output) s = ground arith

producer-start_pop :
    (samples : ℕ) (c : Consumer) (s : System) → (start_pop samples c s).producer ≡ s.producer
unfolding start_pop
producer-start_pop samples Consumer.idle s = refl
producer-start_pop samples (Consumer.loaded_head _ _) s = refl
producer-start_pop samples (Consumer.copying _ _ _ _) s = refl

consumer-move_producer : (p : Producer) (s : System) → (move_producer p s).consumer ≡ s.consumer
unfolding move_producer
consumer-move_producer Producer.idle s = refl
consumer-move_producer (Producer.loaded_head input samples head) s = refl
consumer-move_producer (Producer.copying input count head i) s = ground arith

consumer-start_push :
    (input : List Sample) (samples : ℕ) (p : Producer) (s : System)
    → (start_push input samples p s).consumer ≡ s.consumer
unfolding start_push
consumer-start_push input samples Producer.idle s = refl
consumer-start_push input samples (Producer.loaded_head _ _ _) s = refl
consumer-start_push input samples (Producer.copying _ _ _ _) s = refl

-- A part of the run behind which the producer is in no call.
abbrev pub PushEnds : List Move → System → Type 0
PushEnds ms s =
    (before : List Move) × (after : List Move) × (before ++ after ≡ ms)
    × (pushing before ≤ push_left s.producer)
    × ((run before s).producer ≡ Producer.idle)

abbrev PopEnds : List Move → System → Type 0
PopEnds ms s =
    (before : List Move) × (after : List Move) × (before ++ after ≡ ms)
    × (popping before ≤ pop_left s.consumer)
    × ((run before s).consumer ≡ Consumer.idle)

push_left-idle : (p : Producer) → push_left p ≤ 0 → p ≡ Producer.idle
push_left-idle Producer.idle h = refl
push_left-idle (Producer.loaded_head _ _ _) h = absurd (ground (arith, h))
push_left-idle (Producer.copying _ _ _ _) h = absurd (ground (arith, h))

pop_left-idle : (c : Consumer) → pop_left c ≤ 0 → c ≡ Consumer.idle
pop_left-idle Consumer.idle h = refl
pop_left-idle (Consumer.loaded_head _ _) h = absurd (ground (arith, h))
pop_left-idle (Consumer.copying _ _ _ _) h = absurd (ground (arith, h))

-- While a call is under way, each access of its thread brings it nearer to its end, and no move of
-- the other thread takes it back.
push_left-move :
    (m : Move) (s : System)
    → push_left (move_producer s.producer s).producer + 1 ≤ push_left s.producer
    → ((input : List Sample) (samples : ℕ) → start_push input samples s.producer s ≡ s)
    → pushes m + push_left (move m s).producer ≤ push_left s.producer
unfolding move
push_left-move (calls_push input samples) s less busy =
    omega (arith, ap (λ t. push_left t.producer) (busy input samples))
push_left-move pushes_on s less busy = omega arith
push_left-move (calls_pop samples) s less busy =
    omega (arith, ap push_left (producer-start_pop samples s.consumer s))
push_left-move pops_on s less busy =
    omega (arith, ap push_left (producer-move_consumer s.consumer s))

pop_left-move :
    (m : Move) (s : System)
    → pop_left (move_consumer s.consumer s).consumer + 1 ≤ pop_left s.consumer
    → ((samples : ℕ) → start_pop samples s.consumer s ≡ s)
    → pops m + pop_left (move m s).consumer ≤ pop_left s.consumer
unfolding move
pop_left-move (calls_push input samples) s less busy =
    omega (arith, ap pop_left (consumer-start_push input samples s.producer s))
pop_left-move pushes_on s less busy =
    omega (arith, ap pop_left (consumer-move_producer s.producer s))
pop_left-move (calls_pop samples) s less busy =
    omega (arith, ap (λ t. pop_left t.consumer) (busy samples))
pop_left-move pops_on s less busy = omega arith

-- Whatever the consumer does in between: a run in which the producer makes as many accesses as its
-- call of `push` can still need has a beginning, with no more of them than that, behind which the
-- call has returned.
pub push_ends : (ms : List Move) (s : System) → push_left s.producer ≤ pushing ms → PushEnds ms s
unfolding run
push_ends [] s h = ([], [], refl, omega arith, push_left-idle s.producer h)
push_ends (m ∷ ms) s h = elim (push-progress s.producer s) [
  | inl idle ↦ ([], m ∷ ms, refl, omega arith, idle)
  | inr (less, busy) ↦
      let nearer = push_left-move m s less busy in
      let (before, after, splits, few, idle) = push_ends ms (move m s) (omega arith) in
      (m ∷ before, after, ap (λ xs. m ∷ xs) splits, omega arith, idle)
]

-- The same for the consumer's call of `pop`, whatever the producer does in between.
pop_ends : (ms : List Move) (s : System) → pop_left s.consumer ≤ popping ms → PopEnds ms s
unfolding run
pop_ends [] s h = ([], [], refl, omega arith, pop_left-idle s.consumer h)
pop_ends (m ∷ ms) s h = elim (pop-progress s.consumer s) [
  | inl idle ↦ ([], m ∷ ms, refl, omega arith, idle)
  | inr (less, busy) ↦
      let nearer = pop_left-move m s less busy in
      let (before, after, splits, few, idle) = pop_ends ms (move m s) (omega arith) in
      (m ∷ before, after, ap (λ xs. m ∷ xs) splits, omega arith, idle)
]
