-- ===== src/RingBuffer/Copy.antt =====
-- tg2sip/voip/ring_buffer.h: the copying loops, read by the logical position of a sample.
use native.Mathlib.Decide.{dec_lt}
use native.Mathlib.Nat.{mod-eq_of_lt, mod-eq-sub-mod}
use tg2sip_webrtc.Prelude.{
  ℕ, zero, suc, ◌+◌, ◌-◌, ◌^◌, ◌≤◌, ◌<◌, ◌≡◌, refl, ◌≢◌, ap, ◌∙◌, List, get_or, set, length,
  length-set, arith, if◌then◌else◌, ltb,
}
use tg2sip_webrtc.RingBuffer.{Sample, silence, slot, copy_in, copy_out}
use tg2sip_webrtc.RingBuffer.Window.{window}

module _ {ℓ} {A : Type ℓ} where
  pub get_or-set_self :
      (xs : List A) (i : ℕ) (v d : A) → i < length xs → get_or (set xs i v) i d ≡ v
  get_or-set_self List.[] i v d h = absurd (omega arith)
  get_or-set_self (List.◌∷◌ x xs) zero v d h = refl
  get_or-set_self (List.◌∷◌ x xs) (suc i) v d h = get_or-set_self xs i v d (omega arith)

  pub get_or-set_ne :
      (xs : List A) (i j : ℕ) (v d : A) → i ≢ j → get_or (set xs i v) j d ≡ get_or xs j d
  get_or-set_ne List.[] i j v d h = refl
  get_or-set_ne (List.◌∷◌ x xs) zero zero v d h = absurd (h refl)
  get_or-set_ne (List.◌∷◌ x xs) zero (suc j) v d h = refl
  get_or-set_ne (List.◌∷◌ x xs) (suc i) zero v d h = refl
  get_or-set_ne (List.◌∷◌ x xs) (suc i) (suc j) v d h = get_or-set_ne xs i j v d (λ e. h (ap suc e))

-- The array index of a position less than one round behind `base`.
pub slot_cases :
    (capacity base i : ℕ)
    → capacity ≤ 2 ^ 63
    → base < capacity
    → i < capacity
    → slot capacity base i ≡ (if ltb (base + i) capacity then base + i else base + i - capacity)
slot_cases capacity base i small hb hi = elim (dec_lt (base + i) capacity) [
  | yes p ↦ ground (
    arith,
    mod-eq_of_lt {n = base + i} {m = 2 ^ 64} (omega arith),
    mod-eq_of_lt {n = base + i} {m = capacity} p,
  )
  | no p ↦ ground (
    arith,
    mod-eq_of_lt {n = base + i} {m = 2 ^ 64} (omega arith),
    mod-eq-sub-mod {n = base + i} {m = capacity} (omega arith),
    mod-eq_of_lt {n = base + i - capacity} {m = capacity} (omega arith),
  )
]

pub slot_lt : (capacity base i : ℕ) → 0 < capacity → slot capacity base i < capacity
slot_lt capacity base i h = omega arith

pub slot_ne :
    (capacity base i j : ℕ)
    → capacity ≤ 2 ^ 63
    → base < capacity
    → i < capacity
    → j < capacity
    → i ≢ j
    → slot capacity base i ≢ slot capacity base j
slot_ne capacity base i j small hb hi hj ne =
    ground (arith, slot_cases capacity base i small hb hi, slot_cases capacity base j small hb hj)

pub length-copy_in :
    (buffer : List Sample) (capacity head : ℕ) (samples : List Sample) (i n : ℕ)
    → length (copy_in buffer capacity head samples i n) ≡ length buffer
unfolding copy_in
length-copy_in buffer capacity head samples i zero = refl
length-copy_in buffer capacity head samples i (suc n) =
    length-copy_in (set buffer (slot capacity head i) (get_or samples i silence)) capacity head
      samples (i + 1) n
    ∙ length-set buffer (slot capacity head i) (get_or samples i silence)

pub copy_out-window :
    (buffer : List Sample) (capacity tail i n : ℕ)
    → copy_out buffer capacity tail i n
      ≡ window (λ k. get_or buffer (slot capacity tail k) silence) i n
unfolding copy_out
copy_out-window buffer capacity tail i zero = refl
copy_out-window buffer capacity tail i (suc n) =
    ap (λ ys. List.◌∷◌ (get_or buffer (slot capacity tail i) silence) ys)
      (copy_out-window buffer capacity tail (i + 1) n)

module _ (capacity head : ℕ) (samples : List Sample) (small : capacity ≤ 2 ^ 63)
    (inside : head < capacity) where
  -- An index that the loop does not write keeps its sample.
  pub copy_in_miss :
      (buffer : List Sample) (i n j : ℕ)
      → ((k : ℕ) → i ≤ k → k < i + n → slot capacity head k ≢ j)
      → get_or (copy_in buffer capacity head samples i n) j silence ≡ get_or buffer j silence
  unfolding copy_in
  copy_in_miss buffer i zero j h = refl
  copy_in_miss buffer i (suc n) j h =
      copy_in_miss (set buffer (slot capacity head i) (get_or samples i silence)) (i + 1) n j
        (λ k p q. h k (omega arith) (omega arith))
      ∙ get_or-set_ne buffer (slot capacity head i) j (get_or samples i silence) silence
          (h i (omega arith) (omega arith))

  -- Position `k` holds sample `k` when the loop is done.
  pub copy_in_hit :
      (buffer : List Sample) (i n k : ℕ)
      → length buffer ≡ capacity
      → i + n ≤ capacity
      → i ≤ k
      → k < i + n
      → get_or (copy_in buffer capacity head samples i n) (slot capacity head k) silence
        ≡ get_or samples k silence
  unfolding copy_in
  copy_in_hit buffer i zero k full fits p q = absurd (omega arith)
  copy_in_hit buffer i (suc n) k full fits p q = elim (dec_lt i k) [
    | yes later ↦
        copy_in_hit (set buffer (slot capacity head i) (get_or samples i silence)) (i + 1) n k
          (length-set buffer (slot capacity head i) (get_or samples i silence) ∙ full) (omega arith)
          (omega arith) (omega arith)
    | no now ↦
        let e : i ≡ k = omega arith in
        let rest = set buffer (slot capacity head i) (get_or samples i silence) in
        copy_in_miss rest (i + 1) n (slot capacity head k) (λ m a b.
          slot_ne capacity head m k small inside (omega arith) (omega arith) (omega arith))
        ∙ rw (← e) (
            get_or-set_self buffer (slot capacity head i) (get_or samples i silence) silence
              (omega (arith, slot_lt capacity head i)))
  ]
