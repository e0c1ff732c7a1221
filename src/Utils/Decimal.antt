-- ===== src/Utils/Decimal.antt =====
-- tg2sip/utils.cpp and the number conversions: digits printed and read back.
use tg2sip_webrtc.Prelude.{
  ℕ, zero, suc, ◌+◌, ◌-◌, ◌*◌, ◌/◌, ◌%◌, ◌^◌, ◌<◌, ◌≡◌, refl, ◌∙◌, ap, true, ◌&&◌, [], ◌∷◌, ◌++◌,
  Text, pos, ltb, Bool-cases, inl, inr, arith, ◌≢◌, ltb→lt, length, length-append,
}
use native.Mathlib.Nat.{pow-suc}
use tg2sip_webrtc.Utils.{
  is_digits, digits_value, parse_digits, stol, stoi, number, decimal, to_string,
}

digits_value-append :
    (acc : ℕ) (s t : Text) → digits_value acc (s ++ t) ≡ digits_value (digits_value acc s) t
unfolding digits_value
digits_value-append acc [] t = refl
digits_value-append acc (c ∷ s) t = digits_value-append (acc * 10 + (c - b'0')) s t

is_digits-append : (s t : Text) → is_digits (s ++ t) ≡ (is_digits s && is_digits t)
unfolding is_digits
is_digits-append [] t = refl
is_digits-append (c ∷ s) t = ground (arith, is_digits-append s t)

-- `decimal` prints the number that it is given, whenever the fuel covers its digits.
decimal-value : (fuel n : ℕ) → n < 10 ^ fuel → digits_value 0 (decimal fuel n) ≡ n
unfolding decimal digits_value
decimal-value zero n h = omega arith
decimal-value (suc fuel) n h = elim (Bool-cases (ltb n 10)) [
  | inl small ↦ rw small (omega (arith, ltb→lt n 10 small))
  | inr large ↦
      let ih = decimal-value fuel (n / 10) (omega (arith, pow-suc 10 fuel)) in
      rw large
        (digits_value-append 0 (decimal fuel (n / 10)) ((n % 10 + b'0') ∷ []) ∙ rw ih (omega arith))
]

decimal-is_digits : (fuel n : ℕ) → is_digits (decimal fuel n) ≡ true
unfolding decimal is_digits
decimal-is_digits zero n = refl
decimal-is_digits (suc fuel) n = elim (Bool-cases (ltb n 10)) [
  | inl small ↦ rw small (ground arith)
  | inr large ↦ rw large (
      is_digits-append (decimal fuel (n / 10)) ((n % 10 + b'0') ∷ [])
      ∙ rw (decimal-is_digits fuel (n / 10)) (ground arith))
]

decimal-ne-nil : (fuel n : ℕ) → decimal (suc fuel) n ≢ []
unfolding decimal
decimal-ne-nil fuel n e = elim (Bool-cases (ltb n 10)) [
  | inl small ↦ ground (arith, rw small at e)
  | inr large ↦ omega (
    arith,
    ap length (rw large at e),
    length-append (decimal fuel (n / 10)) ((n % 10 + b'0') ∷ []),
  )
]

parse_digits_lem :
    (limit : ℕ) (s : Text)
    → s ≢ []
    → digits_value 0 s < limit
    → parse_digits limit s ≡ number (digits_value 0 s)
unfolding parse_digits
parse_digits_lem limit [] h lt = absurd (h refl)
parse_digits_lem limit (c ∷ s) h lt = ground arith

-- A non-negative 64-bit number printed by `std::to_string` is a string of digits, and `std::stol`
-- reads the number back.
pub stol-to_string :
    (n : ℕ)
    → n < 2 ^ 63
    → (is_digits (to_string (pos n)) ≡ true) × (stol (to_string (pos n)) ≡ number n)
unfolding to_string
stol-to_string n h =
    let v = decimal-value 20 n (omega arith) in
    (
      decimal-is_digits 20 n,
      parse_digits_lem (2 ^ 63) (decimal 20 n) (decimal-ne-nil 19 n) (omega (arith, v))
          ∙ ap number v,
    )

-- The same for `std::stoi`, whose numbers are below 2^31.
pub stoi-to_string :
    (n : ℕ)
    → n < 2 ^ 31
    → (is_digits (to_string (pos n)) ≡ true)
      × (to_string (pos n) ≢ [])
      × (stoi (to_string (pos n)) ≡ number n)
unfolding to_string
stoi-to_string n h =
    let v = decimal-value 20 n (omega arith) in
    (
      decimal-is_digits 20 n,
      decimal-ne-nil 19 n,
      parse_digits_lem (2 ^ 31) (decimal 20 n) (decimal-ne-nil 19 n) (omega (arith, v))
          ∙ ap number v,
    )
