-- ===== src/Gateway/Numbers/Handlers.antt =====
-- tg2sip/gateway.cpp, the overloads of `process_event`: the numbers of the bridges, and the queues
-- that the other threads fill.
use tg2sip_webrtc.Voip.MediaPorts.{destroy_ports}
use tg2sip_webrtc.Voip.Controller.{TgCallsController, stop_controller, update_signaling}
use tg2sip_webrtc.World.{
  ◌>>◌, ◌>>=◌, pure, M, World, SipEvent, InternalEvent, internal_error, signaling_data_emitted,
  TgUpdate, call, new_message, new_call_signaling_data, other_update,
}
use tg2sip_webrtc.Prelude.{
  if◌then◌else◌, ℕ, ◌≡◌, refl, List, [], ◌∷◌, Option, none, some, get_elem?, Option-cases,
  Bool-cases, inl, inr, arith, Text, Bool,
}
use tg2sip_webrtc.Gateway.Frame.Rules.{Ends-noexcept, Ends, Ends-bind, Quiet}
use tg2sip_webrtc.Gateway.Frame.Steps.{destroy_ports-Quiet}
use tg2sip_webrtc.Outside.{Outside, UpdateNewMessage, UpdateCall, MessageSender, user}
use tg2sip_webrtc.Settings.{Settings}
use tg2sip_webrtc.Gateway.Context.{Context, Event, tg_message, tg_call, sip}
use tg2sip_webrtc.Gateway.Sml.{Sml}
use tg2sip_webrtc.Gateway.Machine.{is_terminated, machine}
use tg2sip_webrtc.Gateway.Process.{
  Bridge, Gateway, find_index, search_call, destroy, feed, settle, deliver, route_message,
  process_call, process_sip, process_message, process_internal_error, process_internal,
  process_signaling, process_update, bridges_of_user, with_found, handle, send_signaling,
  receive_signaling, is_context, is_tg_call, is_sip_call, sip_event_id,
}
use tg2sip_webrtc.Gateway.Frame.Machine.{process_event-Framed}
use tg2sip_webrtc.Gateway.Numbers.{IsNumbered, Rising-remove_at, Rising-set, add_bridge-IsNumbered}

-- A part of the round that keeps the numbers and the queues, however it ends.
abbrev pub Orderly : (Gateway → M Gateway) → Type 0
Orderly f = (g : Gateway) (w : World) → IsNumbered g → Ends IsNumbered w (f g w)

search_call-IsNumbered :
    (p : Bridge → Bool) (g : Gateway) → IsNumbered g → IsNumbered (search_call p g).0
unfolding search_call
search_call-IsNumbered p g h = elim (Option-cases (find_index p g.bridges)) [
  | inl nothing ↦ rw (nothing, search_call) (add_bridge-IsNumbered g h)
  | inr (i, found) ↦ rw (found, search_call) h
]

module _ (sml : Sml) (o : Outside) (settings : Settings) where
  abbrev stopped : TgCallsController → M (Unit {0})
  stopped c = if c.created then stop_controller o c >>= (λ c'. pure tt) else pure tt

  stopped-Quiet : (c : TgCallsController) (w : World) → Quiet w (stopped c w)
  unfolding stop_controller
  stopped-Quiet c w = ground arith

  destroy-Quiet : (ctx : Context) (w : World) → Quiet w (destroy sml o settings ctx w)
  unfolding destroy
  destroy-Quiet ctx w = elim (Option-cases ctx.controller) [
    | inl nothing ↦ rw (nothing, destroy) (tt, (refl, refl))
    | inr (c, there) ↦
        rw (there, destroy)
          (Ends-noexcept (λ _. Unit {0}) (stopped c >> destroy_ports o c.ctx_id) w
            (Ends-bind (λ _. Unit {0}) (λ _. Unit {0}) (stopped c) _ w (stopped-Quiet c w)
              λ _ v _. destroy_ports-Quiet o settings c.ctx_id v))
  ]

  feed-same :
      (e : Event) (b : Bridge) (w : World)
      → Ends (λ b'. b'.ctx.id ≡ b.ctx.id) w (feed sml o settings e b w)
  unfolding feed
  feed-same e b w =
      Ends-bind (λ p. p.1.id ≡ b.ctx.id) (λ b'. b'.ctx.id ≡ b.ctx.id)
        (sml.process_event (machine o settings) b.sm e b.ctx) _ w
        (process_event-Framed sml o settings b.sm e b.ctx w) λ r v same. (same, (refl, refl))

  settle-Orderly :
      (i : ℕ) (b b' : Bridge) (g : Gateway) (w : World)
      → get_elem? g.bridges i ≡ some b
      → b'.ctx.id ≡ b.ctx.id
      → IsNumbered g
      → Ends IsNumbered w (settle sml o settings i b' g w)
  unfolding settle
  settle-Orderly i b b' g w found same h = elim (Bool-cases (is_terminated b'.sm)) [
    | inl over ↦ rw over (
        Ends-bind (λ _. Unit {0}) IsNumbered (destroy sml o settings b'.ctx) _ w
          (destroy-Quiet b'.ctx w) λ u v _. (Rising-remove_at i h, (refl, refl)))
    | inr live ↦ rw live (Rising-set i b b' found same h, (refl, refl))
  ]

  deliver-Orderly : (e : Event) (i : ℕ) → Orderly λ g. deliver sml o settings e (g, i)
  unfolding deliver
  deliver-Orderly e i g w h = elim (Option-cases (get_elem? g.bridges i)) [
    | inl nothing ↦ rw (nothing, Ends, deliver) tt
    | inr (b, found) ↦
        rw (found, Ends, deliver)
          (Ends-bind (λ b'. b'.ctx.id ≡ b.ctx.id) IsNumbered (feed sml o settings e b) _ w
            (feed-same e b w) λ b' v same. settle-Orderly i b b' g v found same h)
  ]

  route_message-Orderly :
      (m : UpdateNewMessage) (matches : List ℕ) → Orderly (route_message sml o settings m matches)
  unfolding route_message
  route_message-Orderly m [] g w h = (h, (refl, refl))
  route_message-Orderly m (i ∷ []) g w h = elim (Option-cases (get_elem? g.bridges i)) [
    | inl nothing ↦ rw (nothing, Ends, route_message) tt
    | inr (b, found) ↦
        rw (found, route_message)
          (Ends-bind (λ b'. b'.ctx.id ≡ b.ctx.id) IsNumbered (feed sml o settings (tg_message m) b)
            _ w (feed-same (tg_message m) b w)
            λ b' v same. (Rising-set i b b' found same h, (refl, refl)))
  ]
  route_message-Orderly m (i ∷ j ∷ more) g w h = (h, (refl, refl))

  with_found-Orderly :
      (found : Option ℕ) (f : Bridge → M (Unit {0}))
      → ((b : Bridge) (w : World) → Quiet w (f b w))
      → Orderly (with_found sml o settings found f)
  with_found-Orderly none f quiet g w h = (h, (refl, refl))
  with_found-Orderly (some i) f quiet g w h = elim (Option-cases (get_elem? g.bridges i)) [
    | inl nothing ↦ rw (nothing, Ends, with_found) tt
    | inr (b, found) ↦
        rw (found, with_found)
          (Ends-bind (λ _. Unit {0}) IsNumbered (f b) _ w (quiet b w) λ u v _. (h, (refl, refl)))
  ]

  process_call-Orderly : (u : UpdateCall) → Orderly (process_call sml o settings u)
  unfolding process_call
  process_call-Orderly u g w h =
      let found = search_call (is_tg_call u.id) g in
      deliver-Orderly (tg_call u) found.1 found.0 w (search_call-IsNumbered (is_tg_call u.id) g h)

  pub process_sip-Orderly : (e : SipEvent) → Orderly (process_sip sml o settings e)
  unfolding process_sip
  process_sip-Orderly e g w h =
      let found = search_call (is_sip_call (sip_event_id e)) g in
      deliver-Orderly (sip e) found.1 found.0 w
        (search_call-IsNumbered (is_sip_call (sip_event_id e)) g h)

  process_message_from :
      (s : MessageSender) (m : UpdateNewMessage)
      → m.sender_id ≡ s
      → Orderly (process_message sml o settings m)
  unfolding process_message
  process_message_from (user i) m e g w h =
      rw (e, process_message) (route_message-Orderly m (bridges_of_user i 0 g.bridges) g w h)
  process_message_from (MessageSender.chat i) m e g w h = rw (e, process_message) (h, (refl, refl))

  process_internal_error-Orderly :
      (id : Text) (e : Event) → Orderly (process_internal_error sml o settings id e)
  unfolding process_internal_error
  process_internal_error-Orderly id e g w h =
      elim (Option-cases (find_index (is_context id) g.bridges)) [
        | inl nothing ↦ rw (nothing, Ends, process_internal_error) (h, (refl, refl))
        | inr (i, found) ↦ rw (found, process_internal_error) (deliver-Orderly e i g w h)
      ]

  pub process_internal-Orderly : (e : InternalEvent) → Orderly (process_internal sml o settings e)
  unfolding process_internal
  process_internal-Orderly (internal_error id prm) g w h =
      process_internal_error-Orderly id (Event.internal_error prm) g w h
  process_internal-Orderly (signaling_data_emitted id bytes) g w h =
      with_found-Orderly (find_index (is_context id) g.bridges)
        (send_signaling sml o settings bytes) (λ b v. ground arith) g w h

  receive_signaling-Quiet :
      (bytes : List ℕ) (b : Bridge) (w : World)
      → Quiet w (receive_signaling sml o settings bytes b w)
  unfolding update_signaling
  receive_signaling-Quiet bytes b w = ground arith

  pub process_update-Orderly : (u : TgUpdate) → Orderly (process_update sml o settings u)
  unfolding process_update process_signaling
  process_update-Orderly (call u) g w h = process_call-Orderly u g w h
  process_update-Orderly (new_message m) g w h = process_message_from m.sender_id m refl g w h
  process_update-Orderly (new_call_signaling_data u) g w h =
      with_found-Orderly (find_index (is_tg_call u.call_id) g.bridges)
        (receive_signaling sml o settings u.bytes) (receive_signaling-Quiet u.bytes) g w h
  process_update-Orderly other_update g w h = (h, (refl, refl))

  pub handle-Orderly :
      {T : Type 0} (f : T → Gateway → M Gateway)
      → ((t : T) → Orderly (f t))
      → (event : Option T) → Orderly (handle sml o settings f event)
  handle-Orderly f orderly none g w h = (h, (refl, refl))
  handle-Orderly f orderly (some t) g w h = orderly t g w h
