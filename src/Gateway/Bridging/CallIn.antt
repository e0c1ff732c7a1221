-- ===== src/Gateway/Bridging/CallIn.antt =====
-- tg2sip/gateway.cpp: a call from Telegram to SIP, from its first event to the bridged audio, through the
-- overloads of `Gateway::process_event`.
use tg2sip_webrtc.Gateway.Bridging.{ports_for, started_for, bridged_for, as_started}
use tg2sip_webrtc.Prelude.{
  length, ◌≤◌, arith, ◌≡◌, refl, ◌∙◌, ℕ, ℤ, List, [], none, some, true, false, lookup, int_eq,
  text_eq, assign, sym, ==_iff, lookup-emplace,
}
use tg2sip_webrtc.Outside.{Outside, MediaInfo, User, pending, ready, UpdateCall, CallServer}
use tg2sip_webrtc.World.{World, SipCall, done, call_media_state_update, M, ◌>>=◌}
use tg2sip_webrtc.Settings.{Settings}
use tg2sip_webrtc.Gateway.Context.{Context, new_context}
use tg2sip_webrtc.Gateway.Guards.{callback_uri_is_set}
use tg2sip_webrtc.Gateway.Sml.{Sml}
use tg2sip_webrtc.Gateway.Machine.{from_tg, FromTg}
use tg2sip_webrtc.Gateway.Process.{
  Gateway, find_index, process_call, process_sip, is_tg_call, is_sip_call,
}
use tg2sip_webrtc.Gateway.Stray.{bind-done, fresh_context}
use tg2sip_webrtc.Gateway.Bridging.Deliver.{with_bridge, sip_event, call_event, first_call_event}
use tg2sip_webrtc.Gateway.Bridging.Incoming.{
  called, accepted, connected, called_world, called_for, accepted_for, called_context,
  incoming_controller, CallsIn,
}

abbrev pub talking_context :
    Settings → Gateway → ℤ → UpdateCall → UpdateCall → List ℕ → List CallServer → Context
talking_context settings g sip_id u v key servers = record (called_context g sip_id u) {
  controller = some (as_started (incoming_controller settings g u v key servers));
}

-- The requests of the whole call, the SIP call that is kept, and the sink that is registered.
abbrev pub talking_world :
    Outside
    → Settings
    → ℕ
    → ℤ
    → User
    → Gateway
    → UpdateCall
    → UpdateCall
    → List ℕ
    → List CallServer
    → World
    → World
talking_world o settings m sip_id caller g u v key servers w =
    record (called_world settings (fresh_context g).id sip_id u.user_id caller w) {
      trace = bridged_for w.objects m (
          started_for (incoming_controller settings g u v key servers) (
            ports_for (fresh_context g).id (
              accepted_for o settings u.id
                (called_for settings w.objects (fresh_context g).id u.user_id caller w.trace))));
      sinks = assign u.user_id (fresh_context g).id w.sinks;
    }

module _ (sml : Sml) (o : Outside) (settings : Settings) where
  -- The events of a call from Telegram, in their order: `u` tells of the call, `v` that it is ready.
  abbrev pub call_in : UpdateCall → ℤ → UpdateCall → Gateway → M Gateway
  call_in u sip_id v g = process_call sml o settings u g >>= λ g₁.
      process_sip sml o settings (call_media_state_update sip_id true) g₁ >>= λ g₂.
      process_call sml o settings v g₂

  -- Where PJSIP and ntgcalls carry out what is asked of them, TDLib knows the user and accepts the
  -- call, and a callback URI is set: a pending call from Telegram whose two call ids neither a
  -- bridge nor, for the SIP id, the table of SIP calls has, calls that URI with the headers that
  -- describe the caller; when the SIP media are there the Telegram call is accepted; when it is
  -- ready, with a key of at least 256 bytes, its two audio ports are made, its audio is started and
  -- connected both ways. These requests are made, in this order and
  -- no other; the bridges that were there stay as they are, the SIP call is kept, and the new
  -- bridge, registered as the sink of the user, waits for digits with both call ids and the
  -- started controller.
  pub call_in-bridged :
      (m : ℕ) (ms : List MediaInfo) (sip_id : ℤ) (caller : User) (u v : UpdateCall) (key : List ℕ)
      (servers : List CallServer) (g : Gateway) (w : World)
      → CallsIn w.objects m ms sip_id caller o
      → callback_uri_is_set settings ≡ true
      → u.is_outgoing ≡ false
      → u.state ≡ pending
      → v.id ≡ u.id
      → v.state ≡ ready key servers
      → 256 ≤ length key
      → lookup sip_id w.calls ≡ none
      → find_index (is_sip_call sip_id) g.bridges ≡ none
      → find_index (is_tg_call u.id) g.bridges ≡ none
      → call_in u sip_id v g w
        ≡ done
            (with_bridge g
              (from_tg FromTg.wait_dtmf)
              (talking_context settings g sip_id u v key servers))
            (talking_world o settings m sip_id caller g u v key servers w)
  unfolding new_context
  call_in-bridged m ms sip_id caller u v key servers g w h uri_set inward at_first same up long
        fresh new_sip new_tg =
      let ctx = fresh_context g in
      let ctx₁ = called_context g sip_id u in
      let ctx₃ = talking_context settings g sip_id u v key servers in
      let w₁ = called_world settings ctx.id sip_id u.user_id caller w in
      let w₂ = record w₁ { trace = accepted_for o settings u.id w₁.trace } in
      let object : SipCall = record { object = w.objects; local_user = [] } in
      let kept : lookup sip_id w₁.calls ≡ some object =
        (ground
          (arith, fresh, lookup-emplace sip_id sip_id object w.calls, ==_iff sip_id sip_id)) in
      bind-done (process_call sml o settings u g) _ w (
        first_call_event sml o settings u g (from_tg FromTg.sip_wait_media) ctx₁ w w₁ new_tg
          (called sml o settings m ms sip_id caller u ctx w h inward at_first uri_set fresh) refl)
      ∙ bind-done (process_sip sml o settings (call_media_state_update sip_id true) _) _ w₁ (
          sip_event sml o settings (call_media_state_update sip_id true) g
            (from_tg FromTg.sip_wait_media) (from_tg FromTg.wait_tg) ctx₁ ctx₁ w₁ w₂ new_sip refl
            (accepted sml o settings w.objects m ms sip_id caller sip_id ctx₁ w₁ h) refl)
      ∙ call_event sml o settings v g (from_tg FromTg.wait_tg) (from_tg FromTg.wait_dtmf) ctx₁ ctx₃
          w₂ _ (rw same new_tg) (sym same)
          (connected sml o settings m ms sip_id caller v key servers object ctx₁ w₂ h kept up
            (ground (arith, long)))
          refl
