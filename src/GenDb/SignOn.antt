-- ===== src/GenDb/SignOn.antt =====
-- tg2sip/gen_db.cpp, `TDClient::auth`: when the loop ends.

use tg2sip_webrtc.Prelude.{
  ℕ, ◌+◌, ◌%◌, ◌^◌, ◌≡◌, refl, ◌∙◌, sym, ap, Option, none, some, List, [], ◌∷◌, ◌++◌, Bool, true,
  false, ◌==◌, ◌||◌, if◌then◌else◌, nat_eq, lookup, erase, Option-cases, Bool-cases, inl, inr,
  arith,
}
use tg2sip_webrtc.Settings.{Settings}
use tg2sip_webrtc.GenDb.{
  TdClient, Response, Object, AuthorizationState, Handler, authorization_update, error,
  other_object, ignore, authentication, ready, logging_out, closing, closed, wait_code,
  wait_registration, wait_password, wait_other_device_confirmation, wait_phone_number,
  wait_premium_purchase, wait_email_address, wait_email_code, wait_tdlib_parameters, on_state,
  on_authorization_state_update, process_update, check_authentication_error, handle, process_answer,
  process_response, auth, finished, waiting, send_query,
}

-- The states in which the sign-on is over.
abbrev is_final : AuthorizationState → Bool
is_final ready = true
is_final logging_out = true
is_final closed = true
is_final s = false

abbrev pub has_final : Option AuthorizationState → Bool
has_final none = false
has_final (some s) = is_final s

abbrev object_brings_final : Option Object → Bool
object_brings_final (some (authorization_update s)) = is_final s
object_brings_final o = false

-- A response that is the update of the authorization to a final state.
abbrev brings_final : Response → Bool
brings_final r = if r.id == 0 then object_brings_final r.object else false

abbrev some_final : List Response → Bool
some_final [] = false
some_final (r ∷ rs) = brings_final r || some_final rs

-- No query is under way before the first state is known, and the loop is over in the final states.
pub record IsSound (c : TdClient) : Type 0 where
  pub started : c.authorization_state ≡ none → c.handlers ≡ []
  pub over : c.sequence_done ≡ has_final c.authorization_state

module _ (settings : Settings) where
  on_state-sequence_done :
      (s : AuthorizationState) (c : TdClient)
      → c.sequence_done ≡ false
      → ((on_state settings s c).sequence_done ≡ is_final s)
        × ((on_state settings s c).authorization_state ≡ c.authorization_state)
  unfolding on_state send_query
  on_state-sequence_done ready c h = (refl, refl)
  on_state-sequence_done logging_out c h = (refl, refl)
  on_state-sequence_done closing c h = (h, refl)
  on_state-sequence_done closed c h = (refl, refl)
  on_state-sequence_done wait_code c h = (h, refl)
  on_state-sequence_done wait_registration c h = (h, refl)
  on_state-sequence_done wait_password c h = (h, refl)
  on_state-sequence_done (wait_other_device_confirmation link) c h = (h, refl)
  on_state-sequence_done wait_phone_number c h = (h, refl)
  on_state-sequence_done wait_premium_purchase c h = (h, refl)
  on_state-sequence_done wait_email_address c h = (h, refl)
  on_state-sequence_done wait_email_code c h = (h, refl)
  on_state-sequence_done wait_tdlib_parameters c h = (h, refl)

  -- `on_authorization_state_update` in the state `s`.
  abbrev pub stepped : AuthorizationState → TdClient → TdClient
  stepped s c =
      on_state settings s
        (record c { authentication_query_id = (c.authentication_query_id + 1) % 2 ^ 64 })

  pub update-known :
      (s : AuthorizationState) (c : TdClient)
      → c.authorization_state ≡ some s
      → on_authorization_state_update settings c ≡ some (stepped s c)
  unfolding on_authorization_state_update
  update-known s c known =
      ap
        (λ state. elim state as (λ _. Option TdClient) [
          | none ↦ none
          | some t ↦ some (stepped t c)
        ])
        known

  -- In the state `s`, with the loop over if `s` is final.
  abbrev In : AuthorizationState → TdClient → Type 0
  In s c = (c.authorization_state ≡ some s) × (c.sequence_done ≡ is_final s)

  stepped-In :
      (s : AuthorizationState) (c : TdClient)
      → c.authorization_state ≡ some s
      → c.sequence_done ≡ false
      → In s (stepped s c)
  stepped-In s c known running =
      let (d, same) =
        on_state-sequence_done s
          (record c { authentication_query_id = (c.authentication_query_id + 1) % 2 ^ 64 })
          running in
      (same ∙ known, d)

  In-IsSound : (s : AuthorizationState) (c : TdClient) → In s c → IsSound c
  In-IsSound s c (known, d) = record { started = λ h. ground (arith, h, known); over = rw known d }

  -- A handler called in a state that is not final leaves the state.
  handle-In :
      (s : AuthorizationState) (handler : Handler) (object : Object) (c : TdClient)
      → In s c
      → c.sequence_done ≡ false
      → (d : TdClient) × (handle settings handler object c ≡ some d) × In s d
  unfolding handle check_authentication_error
  handle-In s ignore object c h running = (c, refl, h)
  handle-In s (authentication id) error c h running =
      elim (Bool-cases (id == c.authentication_query_id)) [
        | inl current ↦ (stepped s c, rw current (update-known s c h.0), stepped-In s c h.0 running)
        | inr stale ↦ (c, rw stale refl, h)
      ]
  handle-In s (authentication id) (authorization_update t) c h running = (c, ground arith, h)
  handle-In s (authentication id) other_object c h running = (c, ground arith, h)

  -- A turn of the loop has a defined result and ends the loop just if it brings a final state.
  abbrev Turn : Response → TdClient → Type 0
  Turn r c =
      (d : TdClient) × (process_response settings r c ≡ some d)
      × IsSound d
      × (d.sequence_done ≡ brings_final r)

  answer-defined :
      (id : ℕ) (object : Object) (c : TdClient)
      → IsSound c
      → c.sequence_done ≡ false
      → (d : TdClient) × (process_answer settings id object c ≡ some d)
        × IsSound d
        × (d.sequence_done ≡ false)
  unfolding process_answer
  answer-defined id object c sound running = elim (Option-cases (lookup id c.handlers)) [
    | inl nothing ↦ (c, rw (nothing, process_answer) refl, sound, running)
    | inr (handler, found) ↦ elim (Option-cases c.authorization_state) [
      | inl unknown ↦ absurd (ground (arith, found, sound.started unknown))
      | inr (s, known) ↦
          let in_s : In s c = (known, rw known at sound.over) in
          let (d, handled, (same, done)) = handle-In s handler object c in_s running in
          (
            record d { handlers = erase id d.handlers },
            rw (found, handled, process_answer) refl,
            In-IsSound s _ (same, done),
            done ∙ sym in_s.1 ∙ running,
          )
    ]
  ]

  update-defined :
      (object : Object) (c : TdClient)
      → IsSound c
      → c.sequence_done ≡ false
      → (d : TdClient) × (process_update settings object c ≡ some d)
        × IsSound d
        × (d.sequence_done ≡ object_brings_final (some object))
  unfolding process_update
  update-defined (authorization_update s) c sound running =
      let c' = record c { authorization_state = some s } in
      let in_s = stepped-In s c' refl running in
      (stepped s c', update-known s c' refl, In-IsSound s _ in_s, in_s.1)
  update-defined error c sound running = (c, refl, sound, running)
  update-defined other_object c sound running = (c, refl, sound, running)

  turn : (r : Response) (c : TdClient) → IsSound c → c.sequence_done ≡ false → Turn r c
  unfolding process_response
  turn r c sound running = elim (Option-cases r.object) [
    | inl nothing ↦
        (c, rw (nothing, process_response) refl, sound, ground (arith, nothing, running))
    | inr (object, there) ↦ elim (Bool-cases (r.id == 0)) [
      | inl update ↦
          let (d, e, s, done) = update-defined object c sound running in
          (d, rw (there, update, process_response) e, s, rw (there, update) done)
      | inr answer ↦
          let (d, e, s, done) = answer-defined r.id object c sound running in
          (d, rw (there, answer, process_response) e, s, rw answer done)
    ]
  ]

  auth-turn :
      (r : Response) (rs : List Response) (c d : TdClient)
      → c.sequence_done ≡ false
      → process_response settings r c ≡ some d
      → auth settings (r ∷ rs) c ≡ auth settings rs d
  unfolding auth
  auth-turn r rs c d running e = rw (running, e, auth) refl

  auth-over :
      (rs : List Response) (d : TdClient)
      → d.sequence_done ≡ true
      → auth settings rs d ≡ finished d rs
  unfolding auth
  auth-over [] d h = rw (h, auth) refl
  auth-over (t ∷ rs) d h = simp (h, auth)

  -- The loop, begun in a sound client that is not done, goes through any responses of which none
  -- brings a final state without following a null pointer, is then still waiting, and leaves a
  -- sound client.
  pub auth-waits :
      (rs : List Response) (c : TdClient)
      → IsSound c
      → c.sequence_done ≡ false
      → some_final rs ≡ false
      → (d : TdClient) × IsSound d × (auth settings rs c ≡ waiting d)
  unfolding auth
  auth-waits [] c sound running none_final = (c, sound, rw (running, auth) refl)
  auth-waits (r ∷ rs) c sound running none_final =
      let (d, e, s, done) = turn r c sound running in
      let (d', s', rest) =
        auth-waits rs d s (ground (arith, done, none_final)) (ground (arith, none_final)) in
      (d', s', auth-turn r rs c d running e ∙ rest)

  -- The loop, begun in a sound client that is not done, ends at the first response that brings
  -- `authorizationStateReady`, `authorizationStateLoggingOut` or `authorizationStateClosed`, in
  -- a final state, and leaves the later ones unread.
  pub auth-finishes :
      (before rest : List Response) (r : Response) (c : TdClient)
      → IsSound c
      → c.sequence_done ≡ false
      → some_final before ≡ false
      → brings_final r ≡ true
      → (d : TdClient) × (has_final d.authorization_state ≡ true)
        × (auth settings (before ++ r ∷ rest) c ≡ finished d rest)
  unfolding auth
  auth-finishes [] rest r c sound running none_final final =
      let (d, e, s, done) = turn r c sound running in
      (
        d,
        sym s.over ∙ done ∙ final,
        auth-turn r rest c d running e ∙ auth-over rest d (done ∙ final),
      )
  auth-finishes (t ∷ before) rest r c sound running none_final final =
      let (d, e, s, done) = turn t c sound running in
      let (d', last, run) =
        auth-finishes before rest r d s (ground (arith, done, none_final))
          (ground (arith, none_final)) final in
      (d', last, auth-turn t (before ++ r ∷ rest) c d running e ∙ run)
