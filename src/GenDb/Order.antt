-- ===== src/GenDb/Order.antt =====
-- tg2sip/gen_db.cpp, `send_query`: the ids of the queries and of the handlers.

use tg2sip_webrtc.Prelude.{
  ℕ, ◌+◌, ◌%◌, ◌^◌, ◌<◌, ◌≤◌, ◌≡◌, refl, ◌∙◌, none, some, Text, false, ==_iff, nat_eq, lookup,
  lookup-emplace, Option-cases, inl, inr, arith,
}
use tg2sip_webrtc.Settings.{Settings}
use tg2sip_webrtc.GenDb.{
  ask, read_word, create_authentication_query_handler, register_user, check_authentication_code,
  check_authentication_password, set_authentication_phone_number, set_tdlib_parameters,
  lib_parameters, proxy_query, TdClient, AuthorizationState, Handler, Query, ignore, authentication,
  ready, logging_out, closing, closed, wait_code, wait_registration, wait_password,
  wait_other_device_confirmation, wait_phone_number, wait_premium_purchase, wait_email_address,
  wait_email_code, wait_tdlib_parameters, on_state, send_query,
}

-- The handlers' query ids, and the ids that they captured, are among those given out.
pub record IsOrdered (c : TdClient) : Type 0 where
  pub ids : (q : ℕ) → c.current_query_id < q → lookup q c.handlers ≡ none
  pub captured :
      (q a : ℕ) → lookup q c.handlers ≡ some (authentication a) → a ≤ c.authentication_query_id

-- Ids are left for one more state.
abbrev pub HasRoom : TdClient → Type 0
HasRoom c = (c.current_query_id + 2 < 2 ^ 64) × (c.authentication_query_id + 1 < 2 ^ 64)

-- A client that has sent queries more: the old ids keep their handlers.
abbrev KeepsOld : TdClient → TdClient → Type 0
KeepsOld c d =
    (d.authentication_query_id ≡ c.authentication_query_id)
    × ((q : ℕ) → q ≤ c.current_query_id → lookup q d.handlers ≡ lookup q c.handlers)

send_query-KeepsOld :
    (f : Query) (h : Handler) (c : TdClient)
    → c.current_query_id + 1 < 2 ^ 64
    → KeepsOld c (send_query f h c)
unfolding send_query
send_query-KeepsOld f h c room = (
  refl,
  λ q old. ground (
    arith,
    lookup-emplace ((c.current_query_id + 1) % 2 ^ 64) q h c.handlers,
    ==_iff ((c.current_query_id + 1) % 2 ^ 64) q,
  ),
)

KeepsOld-then :
    (f : Query) (h : Handler) (c d : TdClient)
    → d.current_query_id ≡ c.current_query_id + 1
    → c.current_query_id + 2 < 2 ^ 64
    → KeepsOld c d
    → KeepsOld c (send_query f h d)
KeepsOld-then f h c d next room (same, old) =
    let (same', old') = send_query-KeepsOld f h d (omega arith) in
    (same' ∙ same, λ q h. old' q (omega arith) ∙ old q h)

ask-KeepsOld :
    (f : Text → Query) (c : TdClient) → c.current_query_id + 1 < 2 ^ 64 → KeepsOld c (ask f c)
ask-KeepsOld f c room =
    send_query-KeepsOld (f (read_word c.input).0) (create_authentication_query_handler c)
      (record c { input = (read_word c.input).1 }) room

-- Ids stay in order when a query is sent whose handler captured the present id, or none.
send_query-IsOrdered :
    (f : Query) (h : Handler) (c : TdClient)
    → ((a : ℕ) → h ≡ authentication a → a ≤ c.authentication_query_id)
    → c.current_query_id + 1 < 2 ^ 64
    → IsOrdered c
    → IsOrdered (send_query f h c)
unfolding send_query
send_query-IsOrdered f h c captures room n = record {
  ids = λ q new. ground (
    arith,
    lookup-emplace ((c.current_query_id + 1) % 2 ^ 64) q h c.handlers,
    ==_iff ((c.current_query_id + 1) % 2 ^ 64) q,
    n.ids q,
  );
  captured = λ q a found. elim (Option-cases (lookup q c.handlers)) [
    | inl nothing ↦ ground (
      arith,
      lookup-emplace ((c.current_query_id + 1) % 2 ^ 64) q h c.handlers,
      captures a,
      nothing,
      found,
    )
    | inr (h', there) ↦ ground (
      arith,
      lookup-emplace ((c.current_query_id + 1) % 2 ^ 64) q h c.handlers,
      n.captured q a,
      there,
      found,
    )
  ];
}

present-le :
    (c : TdClient) (a : ℕ)
    → create_authentication_query_handler c ≡ authentication a
    → a ≤ c.authentication_query_id
present-le c a h = ground (arith, h)

sent-room :
    (c : TdClient)
    → c.current_query_id + 2 < 2 ^ 64
    → (c.current_query_id + 1) % 2 ^ 64 + 1 < 2 ^ 64
sent-room c room = omega arith

ask-IsOrdered :
    (f : Text → Query) (c : TdClient)
    → c.current_query_id + 1 < 2 ^ 64
    → IsOrdered c
    → IsOrdered (ask f c)
ask-IsOrdered f c room n =
    send_query-IsOrdered (f (read_word c.input).0) (create_authentication_query_handler c)
      (record c { input = (read_word c.input).1 }) (λ a h. present-le c a h) room
      (record { ids = n.ids; captured = n.captured })

module _ (settings : Settings) where
  pub on_state-KeepsOld :
      (s : AuthorizationState) (c : TdClient)
      → c.current_query_id + 2 < 2 ^ 64
      → KeepsOld c (on_state settings s c)
  unfolding on_state
  on_state-KeepsOld ready c room = (refl, λ q old. refl)
  on_state-KeepsOld logging_out c room = (refl, λ q old. refl)
  on_state-KeepsOld closing c room = (refl, λ q old. refl)
  on_state-KeepsOld closed c room = (refl, λ q old. refl)
  on_state-KeepsOld wait_code c room = ask-KeepsOld check_authentication_code c (omega arith)
  on_state-KeepsOld wait_registration c room =
      send_query-KeepsOld
        (register_user (read_word c.input).0 (read_word (read_word c.input).1).0 false)
        (create_authentication_query_handler c)
        (record c { input = (read_word (read_word c.input).1).1 }) (omega arith)
  on_state-KeepsOld wait_password c room =
      ask-KeepsOld check_authentication_password c (omega arith)
  on_state-KeepsOld (wait_other_device_confirmation link) c room = (refl, λ q old. refl)
  on_state-KeepsOld wait_phone_number c room =
      ask-KeepsOld set_authentication_phone_number c (omega arith)
  on_state-KeepsOld wait_premium_purchase c room = (refl, λ q old. refl)
  on_state-KeepsOld wait_email_address c room = (refl, λ q old. refl)
  on_state-KeepsOld wait_email_code c room = (refl, λ q old. refl)
  on_state-KeepsOld wait_tdlib_parameters c room =
      KeepsOld-then (set_tdlib_parameters (lib_parameters settings))
        (create_authentication_query_handler c) c (send_query (proxy_query settings) ignore c)
        (next_id c room) room (send_query-KeepsOld (proxy_query settings) ignore c (omega arith))
    where
      next_id :
          (c : TdClient)
          → c.current_query_id + 2 < 2 ^ 64
          → (c.current_query_id + 1) % 2 ^ 64 ≡ c.current_query_id + 1
      next_id c room = omega arith

  pub on_state-IsOrdered :
      (s : AuthorizationState) (c : TdClient)
      → c.current_query_id + 2 < 2 ^ 64
      → IsOrdered c
      → IsOrdered (on_state settings s c)
  unfolding on_state
  on_state-IsOrdered ready c room n = record { ids = n.ids; captured = n.captured }
  on_state-IsOrdered logging_out c room n = record { ids = n.ids; captured = n.captured }
  on_state-IsOrdered closing c room n = n
  on_state-IsOrdered closed c room n = record { ids = n.ids; captured = n.captured }
  on_state-IsOrdered wait_code c room n = ask-IsOrdered check_authentication_code c (omega arith) n
  on_state-IsOrdered wait_registration c room n =
      send_query-IsOrdered
        (register_user (read_word c.input).0 (read_word (read_word c.input).1).0 false)
        (create_authentication_query_handler c)
        (record c { input = (read_word (read_word c.input).1).1 }) (λ a h. present-le c a h)
        (omega arith) (record { ids = n.ids; captured = n.captured })
  on_state-IsOrdered wait_password c room n =
      ask-IsOrdered check_authentication_password c (omega arith) n
  on_state-IsOrdered (wait_other_device_confirmation link) c room n = n
  on_state-IsOrdered wait_phone_number c room n =
      ask-IsOrdered set_authentication_phone_number c (omega arith) n
  on_state-IsOrdered wait_premium_purchase c room n = n
  on_state-IsOrdered wait_email_address c room n = n
  on_state-IsOrdered wait_email_code c room n = n
  on_state-IsOrdered wait_tdlib_parameters c room n =
      send_query-IsOrdered (set_tdlib_parameters (lib_parameters settings))
        (create_authentication_query_handler c) (send_query (proxy_query settings) ignore c)
        (λ a h. present-le c a h) (sent-room c room)
        (send_query-IsOrdered (proxy_query settings) ignore c (λ a h. ground (arith, h))
          (omega arith) n)
