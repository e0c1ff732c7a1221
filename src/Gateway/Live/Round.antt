-- ===== src/Gateway/Live/Round.antt =====
-- tg2sip/gateway.cpp: the overloads of `process_event` and one round of the loop of `start`, for the
-- bridges that are left.
use tg2sip_webrtc.Prelude.{
  ℕ, ◌≡◌, refl, List, [], ◌∷◌, Option, none, some, false, get_elem?, set, Option-cases, inl, inr,
  arith, ◌⊎◌, Text, ℤ,
}
use tg2sip_webrtc.Outside.{Outside, UpdateNewMessage, UpdateCall, MessageSender, user}
use tg2sip_webrtc.World.{
  World, M, done, pure, ◌>>=◌, >>=-eq-done, SipEvent, InternalEvent, internal_error,
  signaling_data_emitted, TgUpdate, call, new_message, new_call_signaling_data, other_update,
}
use tg2sip_webrtc.Settings.{Settings}
use tg2sip_webrtc.Gateway.Context.{Event, tg_message, tg_call, sip}
use tg2sip_webrtc.Gateway.Sml.{Sml}
use tg2sip_webrtc.Gateway.Machine.{
  State, init, from_tg, from_sip, terminated, is_terminated, machine,
}
use tg2sip_webrtc.Gateway.Transitions.{state-process_event, next}
use tg2sip_webrtc.Gateway.Process.{
  Bridge, Gateway, find_index, search_call, feed, route_message, process_call, process_sip,
  process_message, process_internal_error, process_internal, process_signaling, process_update,
  tick, bridges_of_user, with_found, handle, pop_internal, pop_tg, pop_sip, is_context, is_tg_call,
  is_sip_call, sip_event_id,
}
use tg2sip_webrtc.Gateway.Live.{
  IsLive, KeepsLive, KeepsLive-seq, KeepsLive-after, all_live-set, all_live-get, search_call-IsLive,
  deliver-IsLive,
}

MessageSender-cases :
    (s : MessageSender) → ((i : ℤ) × (s ≡ user i)) ⊎ ((i : ℤ) × (s ≡ MessageSender.chat i))
MessageSender-cases (user i) = inl (i, refl)
MessageSender-cases (MessageSender.chat i) = inr (i, refl)

module _ (sml : Sml) (o : Outside) (settings : Settings) where
  -- A message terminates no bridge.
  next-message :
      (s : State) (m : UpdateNewMessage)
      → is_terminated s ≡ false
      → is_terminated (next settings s (tg_message m)) ≡ false
  unfolding next
  next-message init m h = refl
  next-message (from_tg q) m h = refl
  next-message (from_sip q) m h = refl
  next-message terminated m h = h

  feed-message :
      (m : UpdateNewMessage) (b : Bridge) (w : World) {b' : Bridge} {w' : World}
      → is_terminated b.sm ≡ false
      → feed sml o settings (tg_message m) b w ≡ done b' w'
      → is_terminated b'.sm ≡ false
  unfolding feed
  feed-message m b w {b'} {w'} live e =
      let ((s, c), v, processed, last) =
        >>=-eq-done (sml.process_event (machine o settings) b.sm (tg_message m) b.ctx)
          (λ r. pure (record { sm = r.0; ctx = r.1 })) w e in
      ground (
        arith,
        last,
        state-process_event sml o settings b.sm (tg_message m) b.ctx w processed,
        next-message b.sm m live,
      )

  route_message-IsLive :
      (m : UpdateNewMessage) (matches : List ℕ) (g : Gateway) (w : World) {g' : Gateway}
      {w' : World}
      → IsLive g
      → route_message sml o settings m matches g w ≡ done g' w'
      → IsLive g'
  unfolding route_message
  route_message-IsLive m [] g w h e = ground arith
  route_message-IsLive m (i ∷ []) g w h e = elim (Option-cases (get_elem? g.bridges i)) [
    | inl nothing ↦ ground (arith, rw (nothing, route_message) at e)
    | inr (b, found) ↦
        let (b', v, fed, last) =
          >>=-eq-done (feed sml o settings (tg_message m) b)
            (λ b'. pure (record g { bridges = set g.bridges i b' })) w
            (rw (found, route_message) at e) in
        ground (
          arith,
          last,
          all_live-set g.bridges i b' h
              (feed-message m b w (all_live-get g.bridges i b h found) fed),
        )
  ]
  route_message-IsLive m (i ∷ j ∷ more) g w h e = ground arith

  with_found-same :
      (found : Option ℕ) (f : Bridge → M (Unit {0})) (g : Gateway) (w : World) {g' : Gateway}
      {w' : World}
      → with_found sml o settings found f g w ≡ done g' w'
      → g' ≡ g
  with_found-same none f g w e = ground arith
  with_found-same (some i) f g w e = elim (Option-cases (get_elem? g.bridges i)) [
    | inl nothing ↦ ground (arith, rw (nothing, with_found) at e)
    | inr (b, found) ↦
        let (u, v, did, last) = >>=-eq-done (f b) (λ u. pure g) w (rw (found, with_found) at e) in
        ground (arith, last)
  ]

  process_call-IsLive : (u : UpdateCall) → KeepsLive (process_call sml o settings u)
  unfolding process_call
  process_call-IsLive u g w g' w' h e =
      let found = search_call (is_tg_call u.id) g in
      deliver-IsLive sml o settings (tg_call u) found.0 found.1 w
        (search_call-IsLive (is_tg_call u.id) g h) e

  process_sip-IsLive : (ev : SipEvent) → KeepsLive (process_sip sml o settings ev)
  unfolding process_sip
  process_sip-IsLive ev g w g' w' h e =
      let found = search_call (is_sip_call (sip_event_id ev)) g in
      deliver-IsLive sml o settings (sip ev) found.0 found.1 w
        (search_call-IsLive (is_sip_call (sip_event_id ev)) g h) e

  process_message-IsLive : (m : UpdateNewMessage) → KeepsLive (process_message sml o settings m)
  unfolding process_message
  process_message-IsLive m g w g' w' h e = elim (MessageSender-cases m.sender_id) [
    | inl (i, sender) ↦
        route_message-IsLive m (bridges_of_user i 0 g.bridges) g w h
          (rw (sender, process_message) at e)
    | inr (i, sender) ↦ ground (arith, rw (sender, process_message) at e)
  ]

  process_internal_error-IsLive :
      (id : Text) (ev : Event) → KeepsLive (process_internal_error sml o settings id ev)
  unfolding process_internal_error
  process_internal_error-IsLive id ev g w g' w' h e =
      elim (Option-cases (find_index (is_context id) g.bridges)) [
        | inl nothing ↦ ground (arith, rw (nothing, process_internal_error) at e)
        | inr (i, found) ↦
            deliver-IsLive sml o settings ev g i w h (rw (found, process_internal_error) at e)
      ]

  process_internal-IsLive : (ev : InternalEvent) → KeepsLive (process_internal sml o settings ev)
  unfolding process_internal
  process_internal-IsLive (internal_error id prm) g w g' w' h e =
      process_internal_error-IsLive id (Event.internal_error prm) g w g' w' h e
  process_internal-IsLive (signaling_data_emitted id bytes) g w g' w' h e =
      ground (arith, with_found-same (find_index (is_context id) g.bridges) _ g w e)

  process_update-IsLive : (u : TgUpdate) → KeepsLive (process_update sml o settings u)
  unfolding process_update process_signaling
  process_update-IsLive (call u) g w g' w' h e = process_call-IsLive u g w g' w' h e
  process_update-IsLive (new_message m) g w g' w' h e = process_message-IsLive m g w g' w' h e
  process_update-IsLive (new_call_signaling_data u) g w g' w' h e =
      ground (arith, with_found-same (find_index (is_tg_call u.call_id) g.bridges) _ g w e)
  process_update-IsLive other_update g w g' w' h e = ground arith

  handle-IsLive :
      {T : Type 0} (f : T → Gateway → M Gateway)
      → ((t : T) → KeepsLive (f t))
      → (event : Option T) → KeepsLive (handle sml o settings f event)
  handle-IsLive f keeps none g w g' w' h e = ground arith
  handle-IsLive f keeps (some t) g w g' w' h e = keeps t g w g' w' h e

  -- The round from the SIP event on, and from the Telegram update on.
  abbrev sip_part : Gateway → M Gateway
  sip_part g =
      pop_sip sml o settings >>= λ event. handle sml o settings (process_sip sml o settings) event g

  abbrev tg_part : Gateway → M Gateway
  tg_part g = pop_tg sml o settings >>= λ update.
      handle sml o settings (process_update sml o settings) update g >>= sip_part

  sip_part-IsLive : KeepsLive sip_part
  sip_part-IsLive =
      KeepsLive-after (pop_sip sml o settings) (handle sml o settings (process_sip sml o settings))
        (handle-IsLive (process_sip sml o settings) process_sip-IsLive)

  tg_part-IsLive : KeepsLive tg_part
  tg_part-IsLive =
      KeepsLive-after (pop_tg sml o settings)
        (λ update g. handle sml o settings (process_update sml o settings) update g >>= sip_part)
        (λ update.
          KeepsLive-seq (handle sml o settings (process_update sml o settings) update) sip_part
            (handle-IsLive (process_update sml o settings) process_update-IsLive update)
            sip_part-IsLive)

  -- A round of the loop that ends without an exception, begun with no terminated bridge, leaves
  -- none: a bridge that terminates in the round is deleted in it.
  pub tick-IsLive :
      (g : Gateway) (w : World) {g' : Gateway} {w' : World}
      → IsLive g
      → tick sml o settings g w ≡ done g' w'
      → IsLive g'
  unfolding tick
  tick-IsLive g w {g'} {w'} h e =
      KeepsLive-after (pop_internal sml o settings)
        (λ event g₀. handle sml o settings (process_internal sml o settings) event g₀ >>= tg_part)
        (λ event.
          KeepsLive-seq (handle sml o settings (process_internal sml o settings) event) tg_part
            (handle-IsLive (process_internal sml o settings) process_internal-IsLive event)
            tg_part-IsLive)
        g w g' w' h e
