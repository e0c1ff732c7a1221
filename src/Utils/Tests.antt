-- ===== src/Utils/Tests.antt =====
-- tg2sip/utils.cpp: runs.
use tg2sip_webrtc.Prelude.{◌≡◌, refl, text, pos, negsuc, true, false}
use tg2sip_webrtc.Utils.{is_digits, to_string, stol, parse_digits, number, out_of_range}

is_digits_runs : (is_digits (text "0129") ≡ true) × (is_digits (text "+12") ≡ false)
unfolding is_digits
is_digits_runs = (refl, refl)

to_string_runs : (to_string (pos 1203) ≡ text "1203") × (to_string (negsuc 9) ≡ text "-10")
unfolding to_string
to_string_runs = (refl, refl)

stol_runs :
    (stol (text "9223372036854775807") ≡ number 9223372036854775807)
    × (stol (text "9223372036854775808") ≡ out_of_range)
unfolding parse_digits
stol_runs = (refl, refl)
