-- ===== src/Gateway/Bridging/Outgoing.antt =====
-- tg2sip/gateway.cpp: a call from SIP to Telegram up to the bridged audio, where nothing outside
-- fails: what each of its events does to its bridge.
use tg2sip_webrtc.Gateway.Bridging.{
  ended, ports_for, create_tg_voip-started, Carries, started_for, bridged_for, as_started,
  controller_for, bridge_audio-connects,
}
use tg2sip_webrtc.World.{
  ◌>>=◌, World, SipCall, done, incoming_call, call_state_update, call_media_state_update,
}
use tg2sip_webrtc.Gateway.Stray.{bind-done}
use tg2sip_webrtc.Prelude.{
  ◌∙◌, ltb, length, false, ◌≡◌, ℕ, ℤ, Text, List, [], ◌∷◌, some, true, lookup, int_eq, text_eq, pos,
  ◌≤◌, assign, arith,
}
use tg2sip_webrtc.Outside.{
  Outside, Request, pj, td, clock, returned, call_id, MediaInfo, CallOpParam, answer, create_call,
  early, ready, UpdateCall, CallServer,
}
use tg2sip_webrtc.Settings.{Settings}
use tg2sip_webrtc.Sip.{answer_call}
use tg2sip_webrtc.Voip.Controller.{TgCallsController}
use tg2sip_webrtc.Gateway.Context.{Context, tg_call, sip}
use tg2sip_webrtc.Gateway.Values.{param, ringing, ok_code, read_extension}
use tg2sip_webrtc.Gateway.Guards.{is_in_state, is_sip_in_state}
use tg2sip_webrtc.Gateway.Actions.{
  store_sip_id, store_tg_user_id, accept_incoming_sip, accept_extension, answer_sip, create_tg_voip,
  call_protocol,
}
use tg2sip_webrtc.Gateway.DialTg.{dial_tg, dial_extension, dial_by_id}
use tg2sip_webrtc.Gateway.Sml.{Sml, process_event_lem}
use tg2sip_webrtc.Gateway.Machine.{init, from_sip, FromSip, sip_wait_confirm, machine}

-- PJSIP carries out what is asked of it for the call object `object`, whose audio medium is `m`, so
-- does ntgcalls, and TDLib gives every call that it creates the id `i`.
pub record CallsOut (object m : ℕ) (ms : List MediaInfo) (i : ℤ) (o : Outside) : Type 0 where
  pub carries : Carries object m ms o
  pub answers : (t : List Request) (p : CallOpParam) → o.pj_answer t (answer object p) ≡ returned
  pub creates :
      (t : List Request) (user : ℤ) (settings : Settings)
      → o.td_answer t (create_call user (call_protocol o settings)) ≡ call_id i

-- The requests, the newest first.
abbrev pub ringing_for : ℕ → List Request → List Request
ringing_for object t = pj (answer object (param true ringing [])) ∷ t

abbrev pub dialled_for : ℤ → Outside → Settings → List Request → List Request
dialled_for user o settings t = td (create_call user (call_protocol o settings)) ∷ clock ∷ t

abbrev pub answered_for : ℕ → List Request → List Request
answered_for object t = pj (answer object (param true ok_code [])) ∷ t

module _ (sml : Sml) (o : Outside) (settings : Settings) where
  pub ring :
      (object m : ℕ) (ms : List MediaInfo) (i : ℤ) (id : ℤ) (extension : Text) (n : ℕ)
      (call : SipCall) (ctx : Context) (w : World)
      → CallsOut object m ms i o
      → call.object ≡ object
      → lookup id w.calls ≡ some call
      → read_extension extension (record ctx { sip_call_id = id })
        ≡ some (record ctx { sip_call_id = id; user_id = pos n })
      → sml.process_event (machine o settings) init (sip (incoming_call id extension)) ctx w
        ≡ done
            (from_sip sip_wait_confirm, record ctx { sip_call_id = id; user_id = pos n })
            (record w { trace = ringing_for object w.trace })
  unfolding machine store_sip_id accept_incoming_sip accept_extension answer_call
  ring object m ms i id extension n call ctx w h same kept read =
      rw (process_event_lem sml (machine o settings) init (sip (incoming_call id extension)) ctx)
        (ground (arith, read, h.answers w.trace (param true ringing [])))

  pub dialled :
      (object m : ℕ) (ms : List MediaInfo) (i : ℤ) (id : ℤ) (ctx : Context) (w : World)
      → CallsOut object m ms i o
      → ctx.ext_username ≡ []
      → ctx.ext_phone ≡ []
      → w.block_until ≤ o.clock_answer w.trace
      → sml.process_event
          (machine o settings)
          (from_sip sip_wait_confirm)
          (sip (call_state_update id early))
          ctx
          w
        ≡ done
            (from_sip FromSip.wait_tg, record ctx { tg_call_id = i })
            (record w { trace = dialled_for ctx.user_id o settings w.trace })
  unfolding machine dial_tg dial_extension dial_by_id is_sip_in_state
  dialled object m ms i id ctx w h no_name no_phone free =
      rw
        (process_event_lem sml (machine o settings) (from_sip sip_wait_confirm)
          (sip (call_state_update id early)) ctx)
        (ground (arith, h.creates (clock ∷ w.trace) ctx.user_id settings))

  pub started :
      (object m : ℕ) (ms : List MediaInfo) (i : ℤ) (u : UpdateCall) (key : List ℕ)
      (servers : List CallServer) (call : SipCall) (ctx : Context) (w : World)
      → CallsOut object m ms i o
      → call.object ≡ object
      → lookup ctx.sip_call_id w.calls ≡ some call
      → u.state ≡ ready key servers
      → ltb (length key) 256 ≡ false
      → sml.process_event (machine o settings) (from_sip FromSip.wait_tg) (tg_call u) ctx w ≡ (
          let c = controller_for settings u.user_id ctx.id u key servers in
          done
            (
              from_sip FromSip.sip_wait_media,
              record ctx { user_id = u.user_id; controller = some (as_started c) },
            )
            (record w {
              trace = answered_for object (started_for c (ports_for ctx.id w.trace));
              sinks = assign u.user_id ctx.id w.sinks;
            }))
  unfolding machine store_tg_user_id answer_sip answer_call is_in_state
  started object m ms i u key servers call ctx w h same kept up whole =
      let e = tg_call (record u { state = ready key servers }) in
      let ctx₀ = record ctx { user_id = u.user_id } in
      let c = controller_for settings u.user_id ctx.id u key servers in
      let ctx' = record ctx₀ { controller = some (as_started c) } in
      let w' = record w {
        trace = started_for c (ports_for ctx.id w.trace);
        sinks = assign u.user_id ctx.id w.sinks;
      } in
      let w'' = record w' { trace = answered_for object w'.trace } in
      let answered : answer_sip o settings e ctx' w' ≡ done ctx' w'' =
        (ground (arith, kept, same, h.answers w'.trace (param true ok_code []))) in
      rw (process_event_lem sml (machine o settings) (from_sip FromSip.wait_tg) (tg_call u) ctx, up)
        (ended (create_tg_voip o settings e ctx₀ >>= answer_sip o settings e)
          (from_sip FromSip.sip_wait_media) ctx' w w''
          (bind-done (create_tg_voip o settings e ctx₀) (answer_sip o settings e) w
              (create_tg_voip-started o settings object m ms u key servers ctx₀ w h.carries whole)
            ∙ answered))

  pub bridged :
      (m : ℕ) (ms : List MediaInfo) (id : ℤ) (call : SipCall) (c : TgCallsController)
      (ctx : Context) (w : World)
      → Carries call.object m ms o
      → lookup ctx.sip_call_id w.calls ≡ some call
      → ctx.controller ≡ some c
      → sml.process_event
          (machine o settings)
          (from_sip FromSip.sip_wait_media)
          (sip (call_media_state_update id true))
          ctx
          w
        ≡ done
            (from_sip FromSip.wait_dtmf, ctx)
            (record w { trace = bridged_for call.object m w.trace })
  unfolding machine
  bridged m ms id call c ctx w h kept there =
      let e = sip (call_media_state_update id true) in
      rw (process_event_lem sml (machine o settings) (from_sip FromSip.sip_wait_media) e ctx)
        (ground (arith, bridge_audio-connects o settings m ms call c e ctx w h kept there))
