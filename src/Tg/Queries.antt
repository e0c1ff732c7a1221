-- ===== src/Tg/Queries.antt =====
-- tg2sip/tg.cpp: queries and the answers to them.
use mathlib.Core.Path.{subst}
use tg2sip_webrtc.Prelude.{
  ℕ, ◌+◌, ◌^◌, ◌<◌, ◌≤◌, ◌≡◌, ◌≢◌, refl, ap, none, some, ◌∷◌, Bool, false, ==_iff, nat_eq, lookup,
  emplace, erase, lookup-emplace, lookup-erase, arith, Option-cases, inl, inr,
}
use tg2sip_webrtc.Outside.{TdFunction}
use tg2sip_webrtc.Tg.{
  Client, Object, Response, Handler, set_promise, gateway_query, check_authentication, handle,
  returned, future_error, send_query, send_query_async, process_response, process_object,
  process_update, on_authorization_state_update, AuthorizationState, wait_tdlib_parameters,
  authorization_update, ready, other_state,
}

-- The ids of the handlers, and the promises that have a value, are among those given out.
pub record IsNumbered (c : Client) : Type 0 where
  pub ids : (id : ℕ) → c.current_query_id < id → lookup id c.handlers ≡ none
  pub handled : (id p : ℕ) → lookup id c.handlers ≡ some (set_promise p) → p < c.promises
  pub promised : (p : ℕ) → c.promises ≤ p → lookup p c.fulfilled ≡ none

abbrev pub answer_to : ℕ → Object → Response
answer_to id object = record { id = id; object = some object }

process_object-found :
    (id : ℕ) (object : Object) (handler : Handler) (c : Client)
    → id ≢ 0
    → lookup id c.handlers ≡ some handler
    → process_object id object c
      ≡ returned (record (handle handler object c) {
        handlers = erase id (handle handler object c).handlers;
      })
unfolding process_object
process_object-found id object handler c ne found = ground (arith, ==_iff id 0)

process_object-none :
    (id : ℕ) (object : Object) (c : Client)
    → id ≢ 0
    → lookup id c.handlers ≡ none
    → process_object id object c ≡ returned c
unfolding process_object
process_object-none id object c ne nothing = ground (arith, ==_iff id 0)

-- The client behind a query of the gateway, and behind the answer to it.
abbrev pub asked : TdFunction → Client → Client
asked f c = record c {
  current_query_id = c.current_query_id + 1;
  handlers = emplace (c.current_query_id + 1) (set_promise c.promises) c.handlers;
  sent = (c.current_query_id + 1, gateway_query f) ∷ c.sent;
  promises = c.promises + 1;
}

abbrev pub answered : TdFunction → Object → Client → Client
answered f object c = record (asked f c) {
  fulfilled = emplace c.promises object c.fulfilled;
  handlers = erase (c.current_query_id + 1) (asked f c).handlers;
}

send_query_async-asked :
    (f : TdFunction) (c : Client)
    → c.current_query_id + 1 < 2 ^ 64
    → send_query_async false f c ≡ returned (asked f c)
unfolding send_query_async send_query
send_query_async-asked f c room =
    ap
      (λ id. returned (record c {
        current_query_id = id;
        handlers = emplace id (set_promise c.promises) c.handlers;
        sent = (id, gateway_query f) ∷ c.sent;
        promises = c.promises + 1;
      }))
      (omega arith)

-- A query that the gateway sends from its own thread, while ids are left, goes out under a new id;
-- the response with that id gives the promise of the query that object, and a second one does
-- nothing.
pub send_query_async-answered :
    (f : TdFunction) (object second : Object) (c : Client)
    → IsNumbered c
    → c.current_query_id + 1 < 2 ^ 64
    → (send_query_async false f c ≡ returned (asked f c))
      × (process_response (answer_to (c.current_query_id + 1) object) (asked f c)
          ≡ returned (answered f object c))
      × (lookup c.promises (answered f object c).fulfilled ≡ some object)
      × (process_response (answer_to (c.current_query_id + 1) second) (answered f object c)
          ≡ returned (answered f object c))
unfolding process_response
send_query_async-answered f object second c n room =
    let id = c.current_query_id + 1 in
    let kept = lookup-emplace id id (set_promise c.promises) c.handlers in
    (
      send_query_async-asked f c room,
      process_object-found id object (set_promise c.promises) (asked f c) (omega arith)
          (ground (arith, kept, n.ids id, ==_iff id id)),
      ground (
        arith,
        lookup-emplace c.promises c.promises object c.fulfilled,
        n.promised c.promises,
        ==_iff c.promises c.promises,
      ),
      process_object-none id second (answered f object c) (omega arith)
          (ground (arith, lookup-erase id id (asked f c).handlers, ==_iff id id)),
    )

asked-IsNumbered : (f : TdFunction) (c : Client) → IsNumbered c → IsNumbered (asked f c)
asked-IsNumbered f c n = record {
  ids = λ id h. ground (
    arith,
    lookup-emplace (c.current_query_id + 1) id (set_promise c.promises) c.handlers,
    n.ids id,
    ==_iff (c.current_query_id + 1) id,
  );
  handled = λ id p h. ground (
    arith,
    lookup-emplace (c.current_query_id + 1) id (set_promise c.promises) c.handlers,
    n.handled id p,
    ==_iff (c.current_query_id + 1) id,
  );
  promised = λ p h. n.promised p (omega arith);
}

-- The numbering survives a query of the gateway, while ids are left.
send_query_async-IsNumbered :
    (f : TdFunction) (c : Client) {c' : Client}
    → IsNumbered c
    → c.current_query_id + 1 < 2 ^ 64
    → send_query_async false f c ≡ returned c'
    → IsNumbered c'
send_query_async-IsNumbered f c n room e =
    subst IsNumbered (ground (arith, e, send_query_async-asked f c room)) (asked-IsNumbered f c n)

erased-IsNumbered :
    (id : ℕ) (object : Object) (handler : Handler) (c : Client)
    → IsNumbered c
    → lookup id c.handlers ≡ some handler
    → IsNumbered (record (handle handler object c) {
      handlers = erase id (handle handler object c).handlers;
    })
erased-IsNumbered id object (set_promise p) c n found = record {
  ids = λ j h. ground (arith, lookup-erase id j c.handlers, n.ids j);
  handled = λ j q h. ground (arith, lookup-erase id j c.handlers, n.handled j q);
  promised = λ q h. ground (
    arith,
    lookup-emplace p q object c.fulfilled,
    n.promised q,
    n.handled id p found,
    ==_iff p q,
  );
}
erased-IsNumbered id object check_authentication c n found = record {
  ids = λ j h. ground (arith, lookup-erase id j c.handlers, n.ids j);
  handled = λ j q h. ground (arith, lookup-erase id j c.handlers, n.handled j q);
  promised = n.promised;
}

-- The numbering survives the answer to any query, also one that has no handler.
process_response-IsNumbered :
    (id : ℕ) (object : Object) (c : Client) {c' : Client}
    → IsNumbered c
    → id ≢ 0
    → process_response (answer_to id object) c ≡ returned c'
    → IsNumbered c'
unfolding process_response
process_response-IsNumbered id object c n ne e = elim (Option-cases (lookup id c.handlers)) [
  | inl nothing ↦ subst IsNumbered (ground (arith, e, process_object-none id object c ne nothing)) n
  | inr (handler, found) ↦
      subst IsNumbered (ground (arith, e, process_object-found id object handler c ne found))
        (erased-IsNumbered id object handler c n found)
]

-- Once the promise of `is_ready` has its value, every later authorization state but
-- `authorizationStateWaitTdlibParameters` throws `std::future_error` in TDLib's thread.
pub process_response-is_ready :
    (c : Client) (b : Bool) (s : AuthorizationState)
    → c.is_ready ≡ some b
    → s ≢ wait_tdlib_parameters
    → process_response (answer_to 0 (authorization_update s)) c ≡ future_error
unfolding process_response process_object process_update on_authorization_state_update
process_response-is_ready c b ready h ne = ground arith
process_response-is_ready c b other_state h ne = ground arith
process_response-is_ready c b wait_tdlib_parameters h ne = absurd (ne refl)
