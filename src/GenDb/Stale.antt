-- ===== src/GenDb/Stale.antt =====
-- tg2sip/gen_db.cpp, `create_authentication_query_handler`: answers that come too late.
use mathlib.Core.Path.{subst}
use tg2sip_webrtc.Prelude.{
  ℕ, ◌+◌, ◌%◌, ◌^◌, ◌≤◌, ◌≡◌, ◌≢◌, refl, ◌∙◌, sym, none, some, List, [], ◌∷◌, false, ◌==◌, ==_iff,
  nat_eq, lookup, erase, lookup-erase, Option-cases, Bool-cases, inl, inr, arith,
}
use tg2sip_webrtc.Settings.{Settings}
use tg2sip_webrtc.GenDb.{
  TdClient, Response, Object, AuthorizationState, Handler, authorization_update, error,
  other_object, ignore, authentication, check_authentication_error, handle, process_answer,
  process_response, process_update, on_authorization_state_update,
}
use tg2sip_webrtc.GenDb.SignOn.{stepped, update-known}
use tg2sip_webrtc.GenDb.Order.{IsOrdered, HasRoom, on_state-KeepsOld, on_state-IsOrdered}

erase-none : {V : Type 0} (k : ℕ) (m : List (ℕ × V)) → lookup k m ≡ none → erase k m ≡ m
erase-none k [] h = refl
erase-none k ((j, v) ∷ m) h = ground (arith, erase-none k m, h)

no_client : (d : TdClient) → ¬ (none ≡ some d)
no_client d h = cc h

same_client : {c d : TdClient} → some c ≡ some d → c ≡ d
same_client h = cc h

module _ (settings : Settings) where
  answer-dropped :
      (q : ℕ) (object : Object) (d : TdClient)
      → ((a : ℕ) → lookup q d.handlers ≡ some (authentication a) → a ≢ d.authentication_query_id)
      → process_answer settings q object d ≡ some (record d { handlers = erase q d.handlers })
  unfolding process_answer handle
  answer-dropped q object d stale = elim (Option-cases (lookup q d.handlers)) [
    | inl nothing ↦ ground (arith, erase-none q d.handlers nothing, nothing)
    | inr (ignore, found) ↦ ground (arith, found)
    | inr (authentication a, found) ↦
        ground (arith, found, stale a found, ==_iff a d.authentication_query_id)
  ]

  -- The client behind a change of the authorization.
  abbrev pub changed : AuthorizationState → TdClient → TdClient
  changed s c = stepped settings s (record c { authorization_state = some s })

  -- In a client whose ids are in order, with ids left for one more state: once the state of the
  -- authorization has changed, the answer to any query sent before is dropped, an error too, and
  -- only its handler goes.
  pub process_response-stale :
      (s : AuthorizationState) (c : TdClient) (q : ℕ) (object : Object)
      → IsOrdered c
      → HasRoom c
      → q ≢ 0
      → q ≤ c.current_query_id
      → (process_response settings (record { id = 0; object = some (authorization_update s) }) c
          ≡ some (changed s c))
        × (process_response settings (record { id = q; object = some object }) (changed s c)
            ≡ some (record (changed s c) { handlers = erase q (changed s c).handlers }))
  unfolding process_response process_update on_authorization_state_update
  process_response-stale s c q object ordered room ne old =
      let (same, kept) =
        on_state-KeepsOld settings s
          (record c {
            authorization_state = some s;
            authentication_query_id = (c.authentication_query_id + 1) % 2 ^ 64;
          })
          room.0 in
      (
        refl,
        rw (not_zero q ne, process_response)
            (answer-dropped q object (changed s c) λ a found.
              omega (arith, same, ordered.captured q a (sym (kept q old) ∙ found), room.1)),
      )
    where
      not_zero : (q : ℕ) → q ≢ 0 → (q == 0) ≡ false
      not_zero q h = ground (arith, ==_iff q 0)

  stepped-IsOrdered :
      (s : AuthorizationState) (c : TdClient)
      → HasRoom c
      → IsOrdered c
      → IsOrdered (stepped settings s c)
  stepped-IsOrdered s c room n =
      on_state-IsOrdered settings s
        (record c { authentication_query_id = (c.authentication_query_id + 1) % 2 ^ 64 }) room.0
        (record {
          ids = n.ids;
          captured = λ q a found. omega (arith, n.captured q a found, room.1);
        })

  update-IsOrdered :
      (c : TdClient) {d : TdClient}
      → HasRoom c
      → IsOrdered c
      → on_authorization_state_update settings c ≡ some d
      → IsOrdered d
  unfolding on_authorization_state_update
  update-IsOrdered c {d} room n e = elim (Option-cases c.authorization_state) [
    | inl unknown ↦ absurd (no_client d (rw (unknown, on_authorization_state_update) at e))
    | inr (s, known) ↦
        subst IsOrdered (same_client (sym (update-known settings s c known) ∙ e))
          (stepped-IsOrdered s c room n)
  ]

  erased-IsOrdered :
      (q : ℕ) (c : TdClient) → IsOrdered c → IsOrdered (record c { handlers = erase q c.handlers })
  erased-IsOrdered q c n = record {
    ids = λ p h. ground (arith, lookup-erase q p c.handlers, n.ids p);
    captured = λ p a h. ground (arith, lookup-erase q p c.handlers, n.captured p a);
  }

  handle-IsOrdered :
      (handler : Handler) (object : Object) (c : TdClient) {d : TdClient}
      → HasRoom c
      → IsOrdered c
      → handle settings handler object c ≡ some d
      → IsOrdered d
  unfolding handle check_authentication_error
  handle-IsOrdered ignore object c room n e = subst IsOrdered (cc e) n
  handle-IsOrdered (authentication a) error c room n e =
      elim (Bool-cases (a == c.authentication_query_id)) [
        | inl current ↦ update-IsOrdered c room n (rw (current, handle) at e)
        | inr stale ↦ subst IsOrdered (cc (rw (stale, handle) at e)) n
      ]
  handle-IsOrdered (authentication a) (authorization_update s) c room n e =
      subst IsOrdered (ground (arith, e)) n
  handle-IsOrdered (authentication a) other_object c room n e =
      subst IsOrdered (ground (arith, e)) n

  process_update-IsOrdered :
      (object : Object) (c : TdClient) {d : TdClient}
      → HasRoom c
      → IsOrdered c
      → process_update settings object c ≡ some d
      → IsOrdered d
  unfolding process_update
  process_update-IsOrdered (authorization_update s) c room n e =
      update-IsOrdered (record c { authorization_state = some s }) room
        (record { ids = n.ids; captured = n.captured }) e
  process_update-IsOrdered error c room n e = subst IsOrdered (cc e) n
  process_update-IsOrdered other_object c room n e = subst IsOrdered (cc e) n

  process_answer-IsOrdered :
      (id : ℕ) (object : Object) (c : TdClient) {d : TdClient}
      → HasRoom c
      → IsOrdered c
      → process_answer settings id object c ≡ some d
      → IsOrdered d
  unfolding process_answer
  process_answer-IsOrdered id object c {d} room n e = elim (Option-cases (lookup id c.handlers)) [
    | inl nothing ↦ subst IsOrdered (cc (rw (nothing, process_answer) at e)) n
    | inr (handler, found) ↦ elim (Option-cases (handle settings handler object c)) [
      | inl undefined ↦ absurd (no_client d (rw (found, undefined, process_answer) at e))
      | inr (c', handled) ↦
          subst IsOrdered (same_client (rw (found, handled, process_answer) at e))
            (erased-IsOrdered id c' (handle-IsOrdered handler object c room n handled))
    ]
  ]

  -- The ids of the queries and the ids that their handlers captured stay among those given out,
  -- whatever TDLib sends, while ids are left.
  pub process_response-IsOrdered :
      (r : Response) (c : TdClient) {d : TdClient}
      → HasRoom c
      → IsOrdered c
      → process_response settings r c ≡ some d
      → IsOrdered d
  unfolding process_response
  process_response-IsOrdered r c room n e = elim (Option-cases r.object) [
    | inl nothing ↦ subst IsOrdered (cc (rw (nothing, process_response) at e)) n
    | inr (object, there) ↦ elim (Bool-cases (r.id == 0)) [
      | inl update ↦
          process_update-IsOrdered object c room n (rw (there, update, process_response) at e)
      | inr answer ↦
          process_answer-IsOrdered r.id object c room n (rw (there, answer, process_response) at e)
    ]
  ]
