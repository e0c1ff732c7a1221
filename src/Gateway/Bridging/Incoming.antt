-- ===== src/Gateway/Bridging/Incoming.antt =====
-- tg2sip/gateway.cpp: a call from Telegram to SIP up to the bridged audio, where nothing outside
-- fails: what each of its events does to its bridge.
use tg2sip_webrtc.Prelude.{
  none, ltb, length, false, ◌≡◌, refl, ◌∙◌, ℕ, ℤ, Text, List, [], ◌∷◌, some, true, lookup, int_eq,
  text_eq, assign, arith, ◌+◌, emplace,
}
use tg2sip_webrtc.Gateway.Bridging.{
  ended, ports_for, create_tg_voip-started, Carries, started_for, bridged_for, as_started,
  controller_for, bridge_audio-connects,
}
use tg2sip_webrtc.World.{◌>>=◌, World, SipCall, done, call_media_state_update}
use tg2sip_webrtc.Outside.{
  Outside, Request, pj, td, returned, TdObject, MediaInfo, CallOpParam, make_call, get_id, get_user,
  accept_call, User, pending, ready, UpdateCall, CallServer, PjResult,
}
use tg2sip_webrtc.Settings.{Settings}
use tg2sip_webrtc.Sip.{dial}
use tg2sip_webrtc.Voip.Controller.{TgCallsController}
use tg2sip_webrtc.Gateway.Context.{Context, tg_call, sip}
use tg2sip_webrtc.Gateway.Values.{caller_headers}
use tg2sip_webrtc.Gateway.Guards.{is_in_state, is_incoming, callback_uri_is_set}
use tg2sip_webrtc.Gateway.Actions
use tg2sip_webrtc.Gateway.Actions.{
  store_sip_id, store_tg_user_id, accept_incoming_sip, accept_extension, answer_sip, create_tg_voip,
  create_tg_voip_for, call_protocol, store_tg_id, answer_tg, dial_sip, dial_sip_as,
}
use tg2sip_webrtc.Gateway.Sml.{Sml, process_event_lem}
use tg2sip_webrtc.Gateway.Machine.{init, from_tg, FromTg, machine}
use tg2sip_webrtc.Gateway.Process.{Gateway}
use tg2sip_webrtc.Gateway.Stray.{bind-done, fresh_context}

-- PJSIP makes the call object `object` with the id `sip_id` and carries its audio, whose medium is
-- `m`; TDLib knows every user, `caller` being what it tells, and accepts every call.
pub record CallsIn (object m : ℕ) (ms : List MediaInfo) (sip_id : ℤ) (caller : User) (o : Outside)
    : Type 0 where
  pub carries : Carries object m ms o
  pub makes :
      (t : List Request) (uri : Text) (p : CallOpParam)
      → o.pj_answer t (make_call object uri p) ≡ returned
  pub gives_id : (t : List Request) → o.pj_answer t (get_id object) ≡ PjResult.id sip_id
  pub gives_user : (t : List Request) (id : ℤ) → o.td_answer t (get_user id) ≡ TdObject.user caller
  pub accepts :
      (t : List Request) (id : ℤ) (settings : Settings)
      → o.td_answer t (accept_call id (call_protocol o settings)) ≡ TdObject.ok

-- The parameters of the SIP call.
abbrev caller_param : Text → ℤ → User → CallOpParam
caller_param ctx_id user_id caller = record {
  use_default_call_setting = true;
  status_code = 0;
  reason = [];
  headers = caller_headers ctx_id user_id caller;
}

-- The requests, the newest first.
abbrev pub called_for : Settings → ℕ → Text → ℤ → User → List Request → List Request
called_for settings object ctx_id user_id caller t =
    pj (get_id object)
    ∷ pj (make_call object settings.callback_uri (caller_param ctx_id user_id caller))
    ∷ td (get_user user_id)
    ∷ t

abbrev pub accepted_for : Outside → Settings → ℤ → List Request → List Request
accepted_for o settings id t = td (accept_call id (call_protocol o settings)) ∷ t

-- The world after the SIP call was made.
abbrev pub called_world : Settings → Text → ℤ → ℤ → User → World → World
called_world settings ctx_id sip_id user_id caller w = record w {
  trace = called_for settings w.objects ctx_id user_id caller w.trace;
  objects = w.objects + 1;
  calls = emplace sip_id (record { object = w.objects; local_user = [] }) w.calls;
}

-- The context of the new bridge: with both calls, and with its audio.
abbrev pub called_context : Gateway → ℤ → UpdateCall → Context
called_context g sip_id u = record (fresh_context g) {
  sip_call_id = sip_id;
  tg_call_id = u.id;
  user_id = u.user_id;
}

abbrev pub incoming_controller :
    Settings → Gateway → UpdateCall → UpdateCall → List ℕ → List CallServer → TgCallsController
incoming_controller settings g u v key servers =
    controller_for settings u.user_id (fresh_context g).id v key servers

module _ (sml : Sml) (o : Outside) (settings : Settings) where
  pub called :
      (m : ℕ) (ms : List MediaInfo) (sip_id : ℤ) (caller : User) (u : UpdateCall) (ctx : Context)
      (w : World)
      → CallsIn w.objects m ms sip_id caller o
      → u.is_outgoing ≡ false
      → u.state ≡ pending
      → callback_uri_is_set settings ≡ true
      → lookup sip_id w.calls ≡ none
      → sml.process_event (machine o settings) init (tg_call u) ctx w
        ≡ done
            (
              from_tg FromTg.sip_wait_media,
              record ctx { sip_call_id = sip_id; tg_call_id = u.id; user_id = u.user_id },
            )
            (called_world settings ctx.id sip_id u.user_id caller w)
  unfolding machine store_tg_id store_tg_user_id dial_sip dial_sip_as dial is_incoming is_in_state
  called m ms sip_id caller u ctx w h inward at_first uri_set fresh =
      rw (process_event_lem sml (machine o settings) init (tg_call u) ctx) (
        ground (
          arith,
          fresh,
          h.gives_user w.trace u.user_id,
          h.makes (td (get_user u.user_id) ∷ w.trace) settings.callback_uri
              (caller_param ctx.id u.user_id caller),
          h.gives_id (
              pj (make_call w.objects settings.callback_uri (caller_param ctx.id u.user_id caller))
              ∷ td (get_user u.user_id)
              ∷ w.trace),
        ))

  pub accepted :
      (object m : ℕ) (ms : List MediaInfo) (sip_id : ℤ) (caller : User) (id : ℤ) (ctx : Context)
      (w : World)
      → CallsIn object m ms sip_id caller o
      → sml.process_event
          (machine o settings)
          (from_tg FromTg.sip_wait_media)
          (sip (call_media_state_update id true))
          ctx
          w
        ≡ done
            (from_tg FromTg.wait_tg, ctx)
            (record w { trace = accepted_for o settings ctx.tg_call_id w.trace })
  unfolding machine answer_tg
  accepted object m ms sip_id caller id ctx w h =
      rw
        (process_event_lem sml (machine o settings) (from_tg FromTg.sip_wait_media)
          (sip (call_media_state_update id true)) ctx)
        (ground (arith, h.accepts w.trace ctx.tg_call_id settings))

  pub connected :
      (m : ℕ) (ms : List MediaInfo) (sip_id : ℤ) (caller : User) (v : UpdateCall) (key : List ℕ)
      (servers : List CallServer) (call : SipCall) (ctx : Context) (w : World)
      → CallsIn call.object m ms sip_id caller o
      → lookup ctx.sip_call_id w.calls ≡ some call
      → v.state ≡ ready key servers
      → ltb (length key) 256 ≡ false
      → sml.process_event (machine o settings) (from_tg FromTg.wait_tg) (tg_call v) ctx w ≡ (
          let c = controller_for settings ctx.user_id ctx.id v key servers in
          done
            (from_tg FromTg.wait_dtmf, record ctx { controller = some (as_started c) })
            (record w {
              trace = bridged_for call.object m (started_for c (ports_for ctx.id w.trace));
              sinks = assign ctx.user_id ctx.id w.sinks;
            }))
  unfolding machine is_in_state
  connected m ms sip_id caller v key servers call ctx w h kept up whole =
      let e = tg_call (record v { state = ready key servers }) in
      let c = controller_for settings ctx.user_id ctx.id v key servers in
      let ctx' = record ctx { controller = some (as_started c) } in
      let w' = record w {
        trace = started_for c (ports_for ctx.id w.trace);
        sinks = assign ctx.user_id ctx.id w.sinks;
      } in
      rw (process_event_lem sml (machine o settings) (from_tg FromTg.wait_tg) (tg_call v) ctx, up)
        (ended (create_tg_voip o settings e ctx >>= Actions.bridge_audio o settings e)
          (from_tg FromTg.wait_dtmf) ctx' w _
          (bind-done (create_tg_voip o settings e ctx) (Actions.bridge_audio o settings e) w (
              create_tg_voip-started o settings call.object m ms v key servers ctx w h.carries
                whole)
            ∙ bridge_audio-connects o settings m ms call (as_started c) e ctx' w' h.carries kept
                refl))
