-- ===== src/Prelude/Words.antt =====
-- Casts between the integer types of the source, on two's complement.
use Prim.Native.Nat.{ℕ, ◌-◌, ◌%◌, ◌^◌}
use tg2sip_webrtc.Prelude.Tests.{ltb, if◌then◌else◌}
use tg2sip_webrtc.Prelude.Eq.{ℤ, pos, negsuc}

-- To an unsigned type of `w` bits.
abbrev pub to_unsigned : ℕ → ℤ → ℕ
to_unsigned w (pos n) = n % 2 ^ w
to_unsigned w (negsuc n) = 2 ^ w - 1 - n % 2 ^ w

-- A 32-bit pattern read as `int`.
abbrev pub of_pattern32 : ℕ → ℤ
of_pattern32 u = if ltb u (2 ^ 31) then pos u else negsuc (2 ^ 32 - 1 - u)

-- `static_cast<int>` of a `long`.
abbrev pub to_int32 : ℤ → ℤ
to_int32 z = of_pattern32 (to_unsigned 32 z)
