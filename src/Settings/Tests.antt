-- ===== src/Settings/Tests.antt =====
-- tg2sip/settings.cpp: a configuration that is accepted, and one whose API identifier is 2^32.
use tg2sip_webrtc.Prelude.{
  ◌≡◌, refl, true, false, text, ℤ, pos, ◌==◌, text_eq, if◌then◌else◌, some, none, arith, ◌⊎◌,
}
use tg2sip_webrtc.Settings.{IniReader, Settings, read, load, is_loaded}
use tg2sip_webrtc.Settings.Load.{InRange, is_loaded_iff, load-InRange}

abbrev with_api_id : ℤ → IniReader
with_api_id id = record {
  parse_error = pos 0;
  get_integer = λ section name default. if name == text "api_id" then id else default;
  get_boolean = λ section name default. default;
  get = λ section name default. if name == text "api_hash" then text "hash" else default;
}

accepted : is_loaded (load (with_api_id (pos 17))) ≡ true
unfolding is_loaded load read
accepted = refl

-- The `int` cast drops the only bit.
wrapped : is_loaded (load (with_api_id (pos 4294967296))) ≡ false
unfolding is_loaded load read
wrapped = refl

is_loaded_iff_example : is_loaded (load (with_api_id (pos 17))) ≡ true
is_loaded_iff_example =
    (is_loaded_iff (with_api_id (pos 17))).1 (refl, (λ e. ground arith), (λ e. ground arith))

load-InRange_example :
    (load (with_api_id (pos 17)) ≡ none)
    ⊎ ((s : Settings) × (load (with_api_id (pos 17)) ≡ some s) × InRange s)
load-InRange_example = load-InRange (with_api_id (pos 17))
