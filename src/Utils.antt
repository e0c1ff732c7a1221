-- ===== src/Utils.antt =====
-- tg2sip/utils.cpp (`is_digits`, `resolve_config_path`), and the number conversions of the standard
-- library that the gateway calls: `std::to_string`, `std::stol`, `std::stoi`.
pub mod Decimal
mod Tests
use tg2sip_webrtc.Prelude.{
  ℕ, zero, suc, ◌+◌, ◌-◌, ◌*◌, ◌/◌, ◌%◌, ◌^◌, Bool, true, false, ◌&&◌, Option, none, some, List, [],
  ◌∷◌, ◌++◌, Text, text, ℤ, pos, negsuc, ltb, leb, if◌then◌else◌,
}

-- `::isdigit`
abbrev pub is_digit : ℕ → Bool
is_digit c = leb b'0' c && leb c b'9'

-- True of the empty string too, as `std::all_of` is.
unfoldable pub is_digits : Text → Bool
is_digits [] = true
is_digits (c ∷ s) = is_digit c && is_digits s

-- The value of a string of digits behind the digits read so far.
unfoldable pub digits_value : ℕ → Text → ℕ
digits_value acc [] = acc
digits_value acc (c ∷ s) = digits_value (acc * 10 + (c - b'0')) s

-- What `std::stol` and `std::stoi` do with a string of digits.
pub data Parsed : Type 0 where
  number : ℕ → Parsed
  invalid_argument : Parsed
  out_of_range : Parsed

-- `limit` is the first value out of range: 2^63 for `long`, 2^31 for `int`.
unfoldable pub parse_digits : ℕ → Text → Parsed
unfolding digits_value
parse_digits limit [] = invalid_argument
parse_digits limit (c ∷ s) =
    let n = digits_value 0 (c ∷ s) in if ltb n limit then number n else out_of_range

abbrev pub stol : Text → Parsed
stol = parse_digits (2 ^ 63)

abbrev pub stoi : Text → Parsed
stoi = parse_digits (2 ^ 31)

-- Decimal digits of a number, the most significant first; the fuel counts digits.
unfoldable pub decimal : ℕ → ℕ → Text
decimal zero n = []
decimal (suc fuel) n =
    let more = decimal fuel (n / 10) in
    let digit = n % 10 + b'0' in if ltb n 10 then digit ∷ [] else more ++ digit ∷ []

-- `std::to_string`; a number below 10^20 has at most 20 digits, and 64 bits need no more.
unfoldable pub to_string : ℤ → Text
unfolding decimal
to_string (pos n) = decimal 20 n
to_string (negsuc n) = b'-' ∷ decimal 20 (n + 1)

-- `argv` without the program's name, and whether the system-wide file exists.
unfoldable pub resolve_config_path : List Text → Bool → Text
resolve_config_path (path ∷ rest) system_file_exists = path
resolve_config_path [] system_file_exists =
    if system_file_exists then text "/etc/tg2sip-webrtc/tg2sip.conf" else text "tg2sip.conf"
