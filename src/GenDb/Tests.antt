-- ===== src/GenDb/Tests.antt =====
-- tg2sip/gen_db.cpp: signing on with a phone number and a code.
use tg2sip_webrtc.Prelude.{◌≡◌, refl, some, [], ◌∷◌, text, true, arith, List, ◌++◌}
use tg2sip_webrtc.Examples.{settings}
use tg2sip_webrtc.Tg
use tg2sip_webrtc.GenDb.{
  TdClient, new_client, Response, authorization_update, error, ready, wait_code, wait_phone_number,
  wait_tdlib_parameters, AuthorizationState, authentication, auth, finished, on_state,
  process_response, process_update, on_authorization_state_update, send_query, read_word,
}
use tg2sip_webrtc.GenDb.SignOn.{IsSound, auth-finishes, has_final}
use tg2sip_webrtc.GenDb.Order.{IsOrdered}
use tg2sip_webrtc.GenDb.Stale.{process_response-stale, process_response-IsOrdered, changed}
use tg2sip_webrtc.GenDb.Same.{SameRequests, process_response-SameRequests}

-- The user has typed a phone number and a code.
abbrev fresh : TdClient
fresh = new_client (text "123" ∷ text "777" ∷ [])

fresh-IsSound : IsSound fresh
fresh-IsSound = record { started = λ h. refl; over = refl }

fresh-IsOrdered : IsOrdered fresh
fresh-IsOrdered = record { ids = λ q h. refl; captured = λ q a h. ground (arith, h) }

abbrev update : AuthorizationState → Response
update s = record { id = 0; object = some (authorization_update s) }

abbrev sign_on : List Response
sign_on = update wait_tdlib_parameters ∷ update wait_phone_number ∷ update wait_code ∷ []

auth-finishes_example :
    (d : TdClient) × (has_final d.authorization_state ≡ true)
    × (auth settings (sign_on ++ update ready ∷ []) fresh ≡ finished d [])
auth-finishes_example =
    auth-finishes settings sign_on [] (update ready) fresh fresh-IsSound refl refl refl

process_response-SameRequests_example : SameRequests settings fresh (Tg.new_client settings)
process_response-SameRequests_example =
    process_response-SameRequests settings fresh (Tg.new_client settings) refl refl

-- The phone number has been sent, as the query 1.
abbrev asked : TdClient
asked = changed settings wait_phone_number fresh

asked-IsOrdered : IsOrdered asked
unfolding process_response process_update on_authorization_state_update
asked-IsOrdered =
    process_response-IsOrdered settings (update wait_phone_number) fresh (omega arith, omega arith)
      fresh-IsOrdered refl

process_response-stale_example :
    process_response settings
      (record { id = 1; object = some error })
      (changed settings wait_code asked)
    ≡ some (record (changed settings wait_code asked) { handlers = (2, authentication 2) ∷ [] })
unfolding process_response process_update on_authorization_state_update on_state send_query
    read_word
process_response-stale_example =
    (process_response-stale settings wait_code asked 1 error asked-IsOrdered
      (omega arith, omega arith) (omega arith) (omega arith)).1
