-- ===== src/Tg/Tests.antt =====
-- tg2sip/tg.cpp: the first query of a client, its answer, and a late change of authorization.
use tg2sip_webrtc.Prelude.{◌≡◌, refl, some, pos, true, nat_eq, arith}
use tg2sip_webrtc.Outside.{TdFunction, TdObject, get_user}
use tg2sip_webrtc.Tg.{
  Client, new_client, Object, result, other_object, returned, future_error, process_response,
  authorization_update, other_state,
}
use tg2sip_webrtc.Examples.{settings}
use tg2sip_webrtc.Tg.Queries.{
  IsNumbered, answer_to, answered, send_query_async-answered, process_response-is_ready,
}

abbrev fresh : Client
fresh = record (new_client settings) { is_ready = some true }

fresh-IsNumbered : IsNumbered fresh
unfolding new_client
fresh-IsNumbered = record {
  ids = λ id h. refl;
  handled = λ id p h. ground (arith, h);
  promised = λ p h. refl;
}

abbrev query : TdFunction
query = get_user (pos 12)

abbrev reply : Object
reply = result TdObject.ok

send_query_async-answered_example :
    process_response (answer_to 1 other_object) (answered query reply fresh)
    ≡ returned (answered query reply fresh)
unfolding new_client
send_query_async-answered_example =
    (send_query_async-answered query reply other_object fresh fresh-IsNumbered (omega arith)).3

process_response-is_ready_example :
    process_response (answer_to 0 (authorization_update other_state)) fresh ≡ future_error
unfolding new_client
process_response-is_ready_example =
    process_response-is_ready fresh true other_state refl (λ e. ground (arith, e))
