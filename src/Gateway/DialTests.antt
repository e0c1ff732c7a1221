-- ===== src/Gateway/DialTests.antt =====
-- tg2sip/gateway.cpp: extensions, flood limits and caches on concrete inputs.
use tg2sip_webrtc.World.{◌>>=◌, World, done, noted, call_media_state_update}
use tg2sip_webrtc.Outside.{Outside, clock, TdObject}
use tg2sip_webrtc.Gateway.DialTg.{dial_by_id, dial_tg, delay_prefix, parse_error}
use tg2sip_webrtc.Prelude.{
  ◌≡◌, refl, List, [], ◌∷◌, ◌++◌, none, some, Text, text, ℤ, pos, lookup, text_eq, true, false, inl,
  arith, Bool,
}
use tg2sip_webrtc.Utils.{to_string}
use tg2sip_webrtc.Gateway.Context.{Context, new_context, Event, sip}
use tg2sip_webrtc.Gateway.Values.{read_extension}
use tg2sip_webrtc.Gateway.Extension.{read_extension_iff}
use tg2sip_webrtc.Gateway.Flood.{parse_error-delay, dial_by_id-blocks, refused_world, delayed_world}
use tg2sip_webrtc.Gateway.Cache.{fill_cache}
use tg2sip_webrtc.Gateway.Contacts.{fill_cache_lem, id_of_name, id_of_phone, AreUserAnswers}
use tg2sip_webrtc.Examples.{calm, settings, world}

abbrev ctx : Context
ctx = new_context (text "1-1")

abbrev event : Event
event = sip (call_media_state_update (pos 5) true)

read_extension_iff_example :
    read_extension (text "tg#bob") ctx ≡ some (record ctx { ext_username = text "bob" })
read_extension_iff_example =
    (read_extension_iff (text "tg#bob") ctx (record ctx { ext_username = text "bob" })).1
      (inl (text "bob", (λ e. ground (arith, e)), refl, refl))

parse_error-delay_example :
    parse_error calm settings (delay_prefix ++ to_string (pos 60)) world
    ≡ done tt (record (noted clock world) { block_until = 90000001000 })
parse_error-delay_example = parse_error-delay calm settings 60 world (omega arith)

abbrev contact : Text → ℤ → Bool → TdObject
contact name id access = TdObject.user (record {
  id = id;
  have_access = access;
  first_name = [];
  last_name = [];
  username = some name;
  phone_number = name;
})

-- A user without access, and behind it one that is not cached either.
abbrev contacts : List TdObject
contacts =
    contact (text "1") (pos 1) true
    ∷ TdObject.error (pos 404) []
    ∷ contact (text "2") (pos 2) false
    ∷ contact (text "3") (pos 3) true
    ∷ []

fill_cache_lem_example :
    (w' : World) × (fill_cache contacts world ≡ done tt w')
    × (w' ≡ record world { username_cache = w'.username_cache; phone_cache = w'.phone_cache })
    × (lookup (text "1") w'.username_cache ≡ some (pos 1))
    × (lookup (text "3") w'.phone_cache ≡ none)
unfolding id_of_name id_of_phone AreUserAnswers
fill_cache_lem_example =
    fill_cache_lem contacts (text "1") (text "3") world tt (λ e. ground (arith, e))
      (λ e. ground (arith, e))

-- TDLib answers every request with a delay of 60 seconds.
abbrev flooding : Outside
flooding = record calm {
  td_answer = λ asked f. TdObject.error (pos 429) (delay_prefix ++ to_string (pos 60));
}

dial_by_id-blocks_example :
    (dial_by_id flooding settings (pos 12) ctx >>= λ c. dial_tg flooding settings event ctx) world
    ≡ done ctx (
        refused_world flooding settings ctx
          (delayed_world flooding settings 60 (pos 12) (pos 429) ctx world))
dial_by_id-blocks_example =
    dial_by_id-blocks flooding settings 60 (pos 12) (pos 429) event ctx ctx world (omega arith) refl
      (omega arith)
