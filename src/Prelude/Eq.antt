-- ===== src/Prelude/Eq.antt =====
-- Equality tests as an interface, with the instances for numbers, signed integers and texts.
use Prim.Native.Nat.{ℕ}
use Prim.Native.Char.{code}
use Prim.Native.String.{String}
use mathlib.Core.Path.{◌≡◌}
use mathlib.Core.Logic.{◌↔◌}
use mathlib.Core.Bool.{Bool, true, false, ◌&&◌}
use mathlib.Core.List.{List, [], ◌∷◌}
use native.Mathlib.Omega.{arith}
use tg2sip_webrtc.Prelude.Tests.{nat_eqb, nat_eqb_iff}

pub record Eq {ℓ} (A : Type ℓ) : Type ℓ where
  -- Whether two values are equal, decided by a test.
  pub same : A → A → Bool
  pub decides : (x y : A) → (same x y ≡ true) ↔ (x ≡ y)

infix 50 ◌==◌
abbrev pub ◌==◌ {ℓ} : {K : Type ℓ} ⦃test : Eq K⦄ → K → K → Bool
◌==◌ ⦃test⦄ x y = test.same x y

pub ==_iff {ℓ} : {A : Type ℓ} ⦃e : Eq A⦄ (a b : A) → ((a == b) ≡ true) ↔ (a ≡ b)
==_iff ⦃e⦄ a b = e.decides a b

-- The signed integers of the source (`int`, `int32_t`, `int64_t`); `negsuc n` is -(n + 1).
pub data ℤ : Type 0 where
  pos : ℕ → ℤ
  negsuc : ℕ → ℤ

abbrev pub int_eqb : ℤ → ℤ → Bool
int_eqb (pos a) (pos b) = nat_eqb a b
int_eqb (pos a) (negsuc b) = false
int_eqb (negsuc a) (pos b) = false
int_eqb (negsuc a) (negsuc b) = nat_eqb a b

pub int_eqb_iff : (a b : ℤ) → (int_eqb a b ≡ true) ↔ (a ≡ b)
int_eqb_iff (pos a) (pos b) = ground arith
int_eqb_iff (pos a) (negsuc b) = ground arith
int_eqb_iff (negsuc a) (pos b) = ground arith
int_eqb_iff (negsuc a) (negsuc b) = ground arith

-- A `std::string` is its list of bytes.
abbrev pub Text : Type 0
Text = List ℕ

abbrev pub text_eqb : Text → Text → Bool
text_eqb [] [] = true
text_eqb [] (b ∷ bs) = false
text_eqb (a ∷ as') [] = false
text_eqb (a ∷ as') (b ∷ bs) = nat_eqb a b && text_eqb as' bs

pub text_eqb_iff : (a b : Text) → (text_eqb a b ≡ true) ↔ (a ≡ b)
text_eqb_iff [] [] = ground arith
text_eqb_iff [] (b ∷ bs) = ground arith
text_eqb_iff (a ∷ as') [] = ground arith
text_eqb_iff (a ∷ as') (b ∷ bs) = ground (arith, text_eqb_iff as' bs)

instance abbrev pub nat_eq : Eq ℕ
nat_eq = record { same = nat_eqb; decides = nat_eqb_iff }

instance abbrev pub int_eq : Eq ℤ
int_eq = record { same = int_eqb; decides = int_eqb_iff }

instance abbrev pub text_eq : Eq (List ℕ)
text_eq = record { same = text_eqb; decides = text_eqb_iff }

-- A string literal as its bytes (the literals used are ASCII).
abbrev pub text : String → Text
text String.[] = []
text (String.◌∷◌ c s) = code c ∷ text s
