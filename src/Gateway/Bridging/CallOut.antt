-- ===== src/Gateway/Bridging/CallOut.antt =====
-- tg2sip/gateway.cpp: a call from SIP to Telegram, from its first event to the bridged audio, through the
-- overloads of `Gateway::process_event`.
use tg2sip_webrtc.Gateway.Bridging.{ports_for, started_for, bridged_for, as_started, controller_for}
use tg2sip_webrtc.Prelude.{
  length, ◌≤◌, arith, ◌≡◌, refl, ◌∙◌, ℕ, ℤ, List, none, some, true, lookup, int_eq, text_eq, pos,
  assign, ◌^◌, ◌<◌,
}
use tg2sip_webrtc.Outside.{Outside, Request, MediaInfo, early, ready, UpdateCall, CallServer}
use tg2sip_webrtc.World.{
  World, SipCall, done, incoming_call, call_state_update, call_media_state_update, M, ◌>>=◌,
}
use tg2sip_webrtc.Settings.{Settings}
use tg2sip_webrtc.Gateway.Context.{Context, new_context}
use tg2sip_webrtc.Gateway.Sml.{Sml}
use tg2sip_webrtc.Gateway.Machine.{from_sip, FromSip, sip_wait_confirm}
use tg2sip_webrtc.Utils.{to_string}
use tg2sip_webrtc.Gateway.Extension.{read_extension-to_string}
use tg2sip_webrtc.Gateway.Process.{
  Gateway, find_index, process_call, process_sip, is_tg_call, is_sip_call,
}
use tg2sip_webrtc.Gateway.Stray.{bind-done, fresh_context}
use tg2sip_webrtc.Gateway.Bridging.Deliver.{with_bridge, sip_event, call_event, first_sip_event}
use tg2sip_webrtc.Gateway.Bridging.Outgoing.{
  ring, dialled, started, bridged, ringing_for, dialled_for, answered_for, CallsOut,
}

-- The context of the new bridge: after the call came in, with the Telegram call, and with its audio.
abbrev ringing_context : Gateway → ℤ → ℕ → Context
ringing_context g id n = record (fresh_context g) { sip_call_id = id; user_id = pos n }

abbrev dialled_context : Gateway → ℤ → ℕ → ℤ → Context
dialled_context g id n i = record (ringing_context g id n) { tg_call_id = i }

abbrev pub bridged_context :
    Settings → Gateway → ℤ → ℕ → UpdateCall → List ℕ → List CallServer → Context
bridged_context settings g id n u key servers = record (dialled_context g id n u.id) {
  user_id = u.user_id;
  controller =
      some (as_started (controller_for settings u.user_id (fresh_context g).id u key servers));
}

-- The requests of the whole call, and the sink that is registered.
abbrev pub bridged_world :
    Outside
    → Settings
    → ℕ
    → Gateway
    → ℕ
    → UpdateCall
    → List ℕ
    → List CallServer
    → SipCall
    → World
    → World
bridged_world o settings m g n u key servers call w = record w {
  trace = bridged_for call.object m (
      answered_for call.object (
        started_for (controller_for settings u.user_id (fresh_context g).id u key servers) (
          ports_for (fresh_context g).id
            (dialled_for (pos n) o settings (ringing_for call.object w.trace)))));
  sinks = assign u.user_id (fresh_context g).id w.sinks;
}

module _ (sml : Sml) (o : Outside) (settings : Settings) where
  -- The events of a call to the Telegram user `n`, in their order.
  abbrev pub call_out : ℤ → ℕ → UpdateCall → Gateway → M Gateway
  call_out id n u g = process_sip sml o settings (incoming_call id (to_string (pos n))) g >>= λ g₁.
      process_sip sml o settings (call_state_update id early) g₁ >>= λ g₂.
      process_call sml o settings u g₂ >>= λ g₃.
      process_sip sml o settings (call_media_state_update id true) g₃

  -- Where PJSIP and ntgcalls carry out what is asked of them for a kept SIP call, TDLib creates the
  -- Telegram call and no flood limit stands: a call to the decimal id of a Telegram user, below
  -- 2^63, whose two call ids no bridge has, is rung and the user is called; when the Telegram call
  -- is ready, with a key of at least 256 bytes, its two audio ports are made, its audio is started and
  -- the SIP call is answered; when the SIP media are there the
  -- audio is connected both ways. These requests are made, in this order and no other; the bridges
  -- that were there stay as they are, and the new bridge, registered as the sink of the user,
  -- waits for digits with both call ids and the started controller.
  pub call_out-bridged :
      (m : ℕ) (ms : List MediaInfo) (id : ℤ) (n : ℕ) (u : UpdateCall) (key : List ℕ)
      (servers : List CallServer) (call : SipCall) (g : Gateway) (w : World)
      → CallsOut call.object m ms u.id o
      → ((t : List Request) → w.block_until ≤ o.clock_answer t)
      → n < 2 ^ 63
      → lookup id w.calls ≡ some call
      → u.state ≡ ready key servers
      → 256 ≤ length key
      → find_index (is_sip_call id) g.bridges ≡ none
      → find_index (is_tg_call u.id) g.bridges ≡ none
      → call_out id n u g w
        ≡ done
            (with_bridge g
              (from_sip FromSip.wait_dtmf)
              (bridged_context settings g id n u key servers))
            (bridged_world o settings m g n u key servers call w)
  unfolding new_context
  call_out-bridged m ms id n u key servers call g w h free small kept up long new_sip new_tg =
      let ctx = fresh_context g in
      let ctx₁ = ringing_context g id n in
      let ctx₂ = dialled_context g id n u.id in
      let ctx₃ = bridged_context settings g id n u key servers in
      let c = controller_for settings u.user_id ctx.id u key servers in
      let w₁ = record w { trace = ringing_for call.object w.trace } in
      let w₂ = record w { trace = dialled_for (pos n) o settings w₁.trace } in
      let w₃ = record w {
        trace = answered_for call.object (started_for c (ports_for ctx.id w₂.trace));
        sinks = assign u.user_id ctx.id w.sinks;
      } in
      bind-done (process_sip sml o settings (incoming_call id (to_string (pos n))) g) _ w (
        first_sip_event sml o settings (incoming_call id (to_string (pos n))) g
          (from_sip sip_wait_confirm) ctx₁ w w₁ new_sip
          (ring sml o settings call.object m ms u.id id (to_string (pos n)) n call ctx w h refl kept
            (read_extension-to_string n (record ctx { sip_call_id = id }) small))
          refl)
      ∙ bind-done (process_sip sml o settings (call_state_update id early) _) _ w₁ (
          sip_event sml o settings (call_state_update id early) g (from_sip sip_wait_confirm)
            (from_sip FromSip.wait_tg) ctx₁ ctx₂ w₁ w₂ new_sip refl
            (dialled sml o settings call.object m ms u.id id ctx₁ w₁ h refl refl (free w₁.trace))
            refl)
      ∙ bind-done (process_call sml o settings u _) _ w₂ (
          call_event sml o settings u g (from_sip FromSip.wait_tg) (from_sip FromSip.sip_wait_media)
            ctx₂ ctx₃ w₂ w₃ new_tg refl
            (started sml o settings call.object m ms u.id u key servers call ctx₂ w₂ h refl kept up
              (ground (arith, long)))
            refl)
      ∙ sip_event sml o settings (call_media_state_update id true) g
          (from_sip FromSip.sip_wait_media) (from_sip FromSip.wait_dtmf) ctx₃ ctx₃ w₃ _ new_sip refl
          (bridged sml o settings m ms id call (as_started c) ctx₃ w₃ h.carries kept refl) refl
