-- ===== src/RingBuffer/Window.antt =====
-- tg2sip/voip/ring_buffer.h: the samples that a ring buffer holds, and index arithmetic.
use tg2sip_webrtc.Prelude.{
  ℕ, zero, suc, ◌+◌, ◌-◌, min, ◌≤◌, ◌<◌, ◌≡◌, refl, ◌∙◌, ap, List, [], ◌∷◌, ◌++◌, get_or, take,
  drop, length, arith,
}
use mathlib.Core.Path.{ap₂, subst₂}
use native.Mathlib.Nat.{add-zero, zero-add}
use native.Mathlib.Numerals.{one-add}

-- `f i`, `f (i + 1)`, …, `n` values.
abbrev pub window {ℓ} : {A : Type ℓ} → (ℕ → A) → ℕ → ℕ → List A
window f i zero = []
window f i (suc n) = f i ∷ window f (i + 1) n

module _ {ℓ} {A : Type ℓ} where
  pub length-window : (f : ℕ → A) (i n : ℕ) → length (window f i n) ≡ n
  length-window f i zero = refl
  length-window f i (suc n) = ap suc (length-window f (i + 1) n)

  -- Two windows whose values agree are equal.
  pub window_ext :
      (f g : ℕ → A) (i j n : ℕ)
      → ((k : ℕ) → k < n → f (i + k) ≡ g (j + k))
      → window f i n ≡ window g j n
  window_ext f g i j zero h = refl
  window_ext f g i j (suc n) h =
      ap₂ ◌∷◌ (subst₂ (λ a b. f a ≡ g b) (add-zero i) (add-zero j) (h 0 (omega arith))) (
        window_ext f g (i + 1) (j + 1) n
          λ k p. subst₂ (λ a b. f a ≡ g b) (shift i k) (shift j k) (h (suc k) (omega arith)))
    where
      shift : (b k : ℕ) → b + suc k ≡ b + 1 + k
      shift b k = omega arith

  pub window_at : (f : ℕ → A) {i j n m : ℕ} → i ≡ j → n ≡ m → window f i n ≡ window f j m
  window_at f p q = ap₂ (window f) p q

  pub window-append :
      (f : ℕ → A) (i n m : ℕ) → window f i (n + m) ≡ window f i n ++ window f (i + n) m
  window-append f i zero m = window_at f (omega arith) (omega arith)
  window-append f i (suc n) m =
      window_at f {m = suc (n + m)} refl (omega arith)
      ∙ ap (λ ys. f i ∷ ys)
          (window-append f (i + 1) n m
            ∙ ap (λ ys. window f (i + 1) n ++ ys) (window_at f {n = m} (omega arith) refl))

  pub take-window : (f : ℕ → A) (i n m : ℕ) → take m (window f i n) ≡ window f i (min m n)
  take-window f i n zero = window_at f {i = i} {n = 0} refl (omega arith)
  take-window f i zero (suc m) = window_at f {i = i} {n = 0} refl (omega arith)
  take-window f i (suc n) (suc m) =
      ap (λ ys. f i ∷ ys) (take-window f (i + 1) n m)
      ∙ window_at f {i = i} {n = suc (min m n)} refl (omega arith)

  pub drop-window : (f : ℕ → A) (i n m : ℕ) → drop m (window f i n) ≡ window f (i + m) (n - m)
  drop-window f i n zero = window_at f (omega arith) (omega arith)
  drop-window f i zero (suc m) = window_at f {i = i + suc m} {n = 0} refl (omega arith)
  drop-window f i (suc n) (suc m) =
      drop-window f (i + 1) n m ∙ window_at f (omega arith) (omega arith)

  -- The values of a list, by index.
  pub window-get_or :
      (xs : List A) (d : A) (n : ℕ) → n ≤ length xs → window (λ k. get_or xs k d) 0 n ≡ take n xs
  window-get_or xs d zero h = refl
  window-get_or [] d (suc n) h = absurd (omega arith)
  window-get_or (x ∷ xs) d (suc n) h =
      ap (λ ys. x ∷ ys)
        (window_ext (λ k. get_or (x ∷ xs) k d) (λ k. get_or xs k d) 1 0 n (λ k p. next k)
          ∙ window-get_or xs d n (omega arith))
    where
      next : (k : ℕ) → get_or (x ∷ xs) (1 + k) d ≡ get_or xs (0 + k) d
      next k = rw (one-add k, zero-add k)

  -- Counts past the end of a list do no more than its length.
  pub take-min : (n : ℕ) (xs : List A) → take (min n (length xs)) xs ≡ take n xs
  take-min zero xs = ap (λ m. take m xs) {y = 0} (omega arith)
  take-min (suc n) [] = ap {B = List A} (λ m. take m []) {y = 0} (omega arith)
  take-min (suc n) (x ∷ xs) =
      ap (λ m. take m (x ∷ xs)) {y = suc (min n (length xs))} (omega arith)
      ∙ ap (λ ys. x ∷ ys) (take-min n xs)

  pub drop-min : (n : ℕ) (xs : List A) → drop (min n (length xs)) xs ≡ drop n xs
  drop-min zero xs = ap (λ m. drop m xs) {y = 0} (omega arith)
  drop-min (suc n) [] = ap {B = List A} (λ m. drop m []) {y = 0} (omega arith)
  drop-min (suc n) (x ∷ xs) =
      ap (λ m. drop m (x ∷ xs)) {y = suc (min n (length xs))} (omega arith) ∙ drop-min n xs
