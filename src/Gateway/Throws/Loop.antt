-- ===== src/Gateway/Throws/Loop.antt =====
-- tg2sip/gateway.cpp: the exceptions that can end the process in the loop of `Gateway::start`.
use tg2sip_webrtc.Prelude.{
  ◌≡◌, ◌≢◌, refl, ℕ, Option, none, some, List, [], ◌∷◌, Text, get_elem?, inl, inr, Option-cases,
  arith, if◌then◌else◌,
}
use mathlib.Core.Path.{subst}
use tg2sip_webrtc.OptionalQueue
use tg2sip_webrtc.Outside.{
  Outside, user, MessageSender, UpdateNewMessage, UpdateCall, Request, Direction, PortCall, port,
  returned,
}
use tg2sip_webrtc.World.{
  World, Exception, pj_error, runtime_error, range_error, threw, aborted, ◌>>◌, pure, M, TgUpdate,
  call, new_message, new_call_signaling_data, other_update, InternalEvent, internal_error,
  signaling_data_emitted, SipEvent, ◌>>=◌,
}
use tg2sip_webrtc.Settings.{Settings}
use tg2sip_webrtc.Voip.Controller.{update_signaling, TgCallsController, stop_controller}
use tg2sip_webrtc.Voip.MediaPorts.{destroy_ports}
use tg2sip_webrtc.Gateway.Context.{Context, Event}
use tg2sip_webrtc.Gateway.Sml.{Sml}
use tg2sip_webrtc.Gateway.Machine.{
  State, init, from_tg, from_sip, terminated, FromTg, FromSip, machine,
}
use tg2sip_webrtc.Gateway.Transitions.{next}
use tg2sip_webrtc.Gateway.Process.{
  Gateway, Bridge, destroy, feed, settle, deliver, route_message, process_call, process_sip,
  process_message, process_internal_error, process_internal, process_signaling, process_update,
  handle, tick, pop_sip, pop_tg, with_found, send_signaling, receive_signaling, find_index,
  is_context, bridges_of_user, search_call, is_tg_call, is_sip_call, sip_event_id,
}
use tg2sip_webrtc.Gateway.Schedule.{Happening, round, arrives, run, enqueue}
use tg2sip_webrtc.Gateway.Throws.{
  Throws, Throws-bind, Throws-weaken, IsRuntimeError, Contained, Contained-bind, Contained-noexcept,
  Contained-weaken,
}
use tg2sip_webrtc.Gateway.Throws.Escape.{ThrownInto, process_event-Contained}
use tg2sip_webrtc.Gateway.Throws.Voip.{held_ports}

-- Any exception but `pj::Error`.
abbrev NotPjError : Exception → Type 0
NotPjError (pj_error reason) = ⊥
NotPjError (runtime_error message) = Unit {0}
NotPjError range_error = Unit {0}

no_pj_error : (t s : State) (reason : Text) → ThrownInto IsRuntimeError t s (pj_error reason) → ⊥
no_pj_error terminated s reason h = h
no_pj_error init s reason h = h
no_pj_error (from_tg FromTg.sip_wait_media) init reason h = h
no_pj_error (from_tg FromTg.sip_wait_media) _ reason h = h
no_pj_error (from_tg FromTg.wait_tg) s reason h = h
no_pj_error (from_tg FromTg.wait_dtmf) (from_tg FromTg.wait_tg) reason h = h
no_pj_error (from_tg FromTg.wait_dtmf) (from_tg FromTg.wait_dtmf) reason h = h
no_pj_error (from_tg FromTg.wait_dtmf) (from_tg _) reason h = h
no_pj_error (from_tg FromTg.wait_dtmf) _ reason h = h
no_pj_error (from_sip FromSip.sip_wait_confirm) s reason h = h
no_pj_error (from_sip FromSip.wait_tg) (from_sip FromSip.sip_wait_confirm) reason h = h
no_pj_error (from_sip FromSip.wait_tg) (from_sip _) reason h = h
no_pj_error (from_sip FromSip.wait_tg) _ reason h = h
no_pj_error (from_sip FromSip.sip_wait_media) (from_sip FromSip.wait_tg) reason h = h
no_pj_error (from_sip FromSip.sip_wait_media) (from_sip _) reason h = h
no_pj_error (from_sip FromSip.sip_wait_media) _ reason h = h
no_pj_error (from_sip FromSip.wait_dtmf) (from_sip FromSip.wait_dtmf) reason h = h
no_pj_error (from_sip FromSip.wait_dtmf) (from_sip _) reason h = h
no_pj_error (from_sip FromSip.wait_dtmf) _ reason h = h

ThrownInto-NotPjError :
    (t s : State) (e : Exception) → ThrownInto IsRuntimeError t s e → NotPjError e
ThrownInto-NotPjError t s (pj_error reason) h = no_pj_error t s reason h
ThrownInto-NotPjError t s (runtime_error message) h = tt
ThrownInto-NotPjError t s range_error h = tt

runtime_is_no_pj_error : (e : Exception) → IsRuntimeError e → NotPjError e
runtime_is_no_pj_error (pj_error reason) h = h
runtime_is_no_pj_error (runtime_error message) h = tt
runtime_is_no_pj_error range_error h = tt

module _ (sml : Sml) (o : Outside) (settings : Settings)
    (held : (t : List Request) (owner : Text) (d : Direction) (call : PortCall)
      → o.pj_answer t (port owner d call) ≡ returned) where
  abbrev Safe : {A : Type 0} → M A → Type 0
  Safe m = (w : World) → Contained NotPjError (m w)

  abbrev SafeStep : (Gateway → M Gateway) → Type 0
  SafeStep f = (g : Gateway) → Safe (f g)

  feed-Safe : (e : Event) (b : Bridge) → Safe (feed sml o settings e b)
  unfolding feed
  feed-Safe e b w =
      Contained-bind NotPjError (sml.process_event (machine o settings) b.sm e b.ctx) _ w
        (Contained-weaken (ThrownInto IsRuntimeError (next settings b.sm e) b.sm) NotPjError _
          (ThrownInto-NotPjError (next settings b.sm e) b.sm)
          (process_event-Contained sml o settings IsRuntimeError (held_ports o held) b.sm e b.ctx
            w))
        λ r v. tt

  abbrev stopped : TgCallsController → M (Unit {0})
  stopped c = if c.created then stop_controller o c >>= (λ c'. pure tt) else pure tt

  stopped-Throws : (c : TgCallsController) (w : World) → Throws NotPjError (stopped c w)
  unfolding stop_controller
  stopped-Throws c w = ground arith

  destroy-Safe : (ctx : Context) → Safe (destroy sml o settings ctx)
  unfolding destroy
  destroy-Safe ctx w = elim (Option-cases ctx.controller) [
    | inl nothing ↦ rw (nothing, destroy) tt
    | inr (c, there) ↦
        rw (there, destroy)
          (Contained-noexcept NotPjError (stopped c >> destroy_ports o c.ctx_id) w (
            Throws-bind NotPjError (stopped c) _ w (stopped-Throws c w) λ _ v.
              Throws-weaken IsRuntimeError NotPjError _ runtime_is_no_pj_error
                ((held_ports o held).destroys c.ctx_id v)))
  ]

  settle-Safe : (i : ℕ) (b : Bridge) → SafeStep (settle sml o settings i b)
  unfolding settle
  settle-Safe i b g w = ground (arith, destroy-Safe b.ctx w)

  deliver-Safe : (e : Event) (g : Gateway) (i : ℕ) → Safe (deliver sml o settings e (g, i))
  unfolding deliver
  deliver-Safe e g i w = elim (Option-cases (get_elem? g.bridges i)) [
    | inl nobody ↦ rw (nobody, deliver) tt
    | inr (b, there) ↦
        rw (there, deliver)
          (Contained-bind NotPjError (feed sml o settings e b) _ w (feed-Safe e b w)
            λ b' v. settle-Safe i b' g v)
  ]

  process_call-Safe : (u : UpdateCall) → SafeStep (process_call sml o settings u)
  unfolding process_call
  process_call-Safe u g w =
      let (g', i) = search_call (is_tg_call u.id) g in deliver-Safe (Event.tg_call u) g' i w

  process_sip-Safe : (e : SipEvent) → SafeStep (process_sip sml o settings e)
  unfolding process_sip
  process_sip-Safe e g w =
      let (g', i) = search_call (is_sip_call (sip_event_id e)) g in
      deliver-Safe (Event.sip e) g' i w

  route_message-Safe :
      (m : UpdateNewMessage) (is : List ℕ) → SafeStep (route_message sml o settings m is)
  unfolding route_message
  route_message-Safe m [] g w = tt
  route_message-Safe m (i ∷ j ∷ is) g w = tt
  route_message-Safe m (i ∷ []) g w = elim (Option-cases (get_elem? g.bridges i)) [
    | inl nobody ↦ rw (nobody, route_message) tt
    | inr (b, there) ↦
        rw (there, route_message)
          (Contained-bind NotPjError (feed sml o settings (Event.tg_message m) b) _ w
            (feed-Safe (Event.tg_message m) b w) λ b' v. tt)
  ]

  sender-Safe :
      (sender : MessageSender) (m : UpdateNewMessage) (g : Gateway) (w : World)
      → m.sender_id ≡ sender
      → Contained NotPjError (process_message sml o settings m g w)
  unfolding process_message
  sender-Safe (user id) m g w e =
      rw (e, process_message) (route_message-Safe m (bridges_of_user id 0 g.bridges) g w)
  sender-Safe (MessageSender.chat id) m g w e = rw (e, process_message) tt

  process_message-Safe : (m : UpdateNewMessage) → SafeStep (process_message sml o settings m)
  process_message-Safe m g w = sender-Safe m.sender_id m g w refl

  with_found-Safe :
      (found : Option ℕ) (f : Bridge → M (Unit {0}))
      → ((b : Bridge) → Safe (f b))
      → SafeStep (with_found sml o settings found f)
  with_found-Safe none f h g w = tt
  with_found-Safe (some i) f h g w = elim (Option-cases (get_elem? g.bridges i)) [
    | inl nobody ↦ rw (nobody, with_found) tt
    | inr (b, there) ↦
        rw (there, with_found) (Contained-bind NotPjError (f b) _ w (h b w) λ u v. tt)
  ]

  send_signaling-Safe : (bytes : List ℕ) (b : Bridge) → Safe (send_signaling sml o settings bytes b)
  send_signaling-Safe bytes b w = ground arith

  receive_signaling-Safe :
      (bytes : List ℕ) (b : Bridge) → Safe (receive_signaling sml o settings bytes b)
  unfolding update_signaling
  receive_signaling-Safe bytes b w = ground arith

  process_internal_error-Safe :
      (id : Text) (e : Event) → SafeStep (process_internal_error sml o settings id e)
  unfolding process_internal_error
  process_internal_error-Safe id e g w =
      elim (Option-cases (find_index (is_context id) g.bridges)) [
        | inl nobody ↦ rw (nobody, process_internal_error) tt
        | inr (i, there) ↦ rw (there, process_internal_error) (deliver-Safe e g i w)
      ]

  process_internal-Safe : (e : InternalEvent) → SafeStep (process_internal sml o settings e)
  unfolding process_internal
  process_internal-Safe (internal_error id prm) g w =
      process_internal_error-Safe id (Event.internal_error prm) g w
  process_internal-Safe (signaling_data_emitted id bytes) g w =
      with_found-Safe (find_index (is_context id) g.bridges) (send_signaling sml o settings bytes)
        (send_signaling-Safe bytes) g w

  process_update-Safe : (u : TgUpdate) → SafeStep (process_update sml o settings u)
  unfolding process_update process_signaling
  process_update-Safe (call u) g w = process_call-Safe u g w
  process_update-Safe (new_message m) g w = process_message-Safe m g w
  process_update-Safe (new_call_signaling_data u) g w =
      with_found-Safe (find_index (is_tg_call u.call_id) g.bridges)
        (receive_signaling sml o settings u.bytes) (receive_signaling-Safe u.bytes) g w
  process_update-Safe other_update g w = tt

  handle-Safe :
      {T : Type 0} (f : T → Gateway → M Gateway) (event : Option T)
      → ((t : T) → SafeStep (f t))
      → SafeStep (handle sml o settings f event)
  handle-Safe f none h g w = tt
  handle-Safe f (some t) h g w = h t g w

  -- The rest of a round behind the internal event, and behind the update.
  abbrev sip_part : Gateway → M Gateway
  sip_part g =
      pop_sip sml o settings >>= λ e. handle sml o settings (process_sip sml o settings) e g

  abbrev update_part : Gateway → M Gateway
  update_part g = do
    update ← pop_tg sml o settings
    g' ← handle sml o settings (process_update sml o settings) update g
    sip_part g'

  sip_part-Safe : SafeStep sip_part
  sip_part-Safe g w = handle-Safe (process_sip sml o settings) _ process_sip-Safe g _

  update_part-Safe : SafeStep update_part
  update_part-Safe g w =
      let update = (OptionalQueue.pop w.tg_events).0 in
      let v = record w { tg_events = (OptionalQueue.pop w.tg_events).1 } in
      Contained-bind NotPjError (handle sml o settings (process_update sml o settings) update g)
        sip_part v (handle-Safe (process_update sml o settings) update process_update-Safe g v)
        sip_part-Safe

  tick-Safe : SafeStep (tick sml o settings)
  unfolding tick
  tick-Safe g w =
      let event = (OptionalQueue.pop w.internal_events).0 in
      let v = record w { internal_events = (OptionalQueue.pop w.internal_events).1 } in
      Contained-bind NotPjError (handle sml o settings (process_internal sml o settings) event g)
        update_part v
        (handle-Safe (process_internal sml o settings) event process_internal-Safe g v)
        update_part-Safe

  run-Safe : (hs : List Happening) → SafeStep (run sml o settings hs)
  unfolding run
  run-Safe [] g w = tt
  run-Safe (round ∷ hs) g w =
      Contained-bind NotPjError (tick sml o settings g) (run sml o settings hs) w (tick-Safe g w)
        (run-Safe hs)
  run-Safe (arrives a ∷ hs) g w = run-Safe hs g (enqueue a w)

  -- Where PJSIP takes and gives back every port, however the rounds of the loop and the events of
  -- the other threads follow on each other, and whatever else the outside answers, no exception
  -- comes out of the loop and no `pj::Error` ends the process in it: every other failure of PJSIP is
  -- caught on the way.
  pub run-no_pj_error :
      (hs : List Happening) (g : Gateway) (w : World) (x : Exception) (w' : World) (reason : Text)
      → (run sml o settings hs g w ≢ threw x w')
        × (run sml o settings hs g w ≢ aborted (pj_error reason))
  run-no_pj_error hs g w x w' reason = (
    λ h. subst (Contained NotPjError) h (run-Safe hs g w),
    λ h. subst (Contained NotPjError) h (run-Safe hs g w),
  )
