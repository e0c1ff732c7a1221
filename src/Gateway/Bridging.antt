-- ===== src/Gateway/Bridging.antt =====
-- tg2sip/gateway.cpp: calls from their first event to the bridged audio, where nothing outside
-- fails: what the start of the audio and its connection do.
mod Deliver
mod Outgoing
mod Incoming
mod CallOut
mod CallIn
mod Tests
use tg2sip_webrtc.World.{
  noexcept-done, noexcept, M, pure, ◌>>=◌, World, SipCall, done, incoming_call, call_state_update,
  call_media_state_update,
}
use tg2sip_webrtc.Gateway.Machine.{State, init, from_sip, FromSip, sip_wait_confirm, machine}
use tg2sip_webrtc.Voip.MediaPorts.{port_info, pool_name, make_port, init_port, make_ports}
use tg2sip_webrtc.Outside.{
  Direction, PortCall, port, register_media_port, port_info_init, pool_create, UpdateCall,
  CallServer, ready, Outside, Request, pj, td, ntg, clock, returned, media, completed, call_id,
  TdObject, MediaInfo, CallOpParam, answer, get_media, start_transmit_to_input,
  start_transmit_from_output, create_call, create_p2p, set_capture_sources, set_playback_sources,
  skip_exchange, connect_p2p, early, NtgFunction,
}
use tg2sip_webrtc.Gateway.Actions.{
  create_tg_voip, create_tg_voip_for, start_voip, store_sip_id, store_tg_user_id,
  accept_incoming_sip, accept_extension, answer_sip, call_protocol,
}
use tg2sip_webrtc.Gateway.Stray.{bind-done}
use tg2sip_webrtc.Prelude.{
  ltb, length, refl, ◌∙◌, false, ℤ, Text, ◌≡◌, ℕ, List, [], ◌∷◌, ◌++◌, Option, none, some, true,
  lookup, int_eq, text_eq, ◌==◌, pos, ◌≤◌, assign, arith, not, ◌&&◌, take,
}
use tg2sip_webrtc.Gateway.Context.{Context, tg_call, Event, sip}
use tg2sip_webrtc.Settings.{Settings}
use tg2sip_webrtc.Sip
use tg2sip_webrtc.Sip.{answer_call, audio_media, audio_media_from, connect_audio}
use tg2sip_webrtc.Voip.Controller.{
  TgCallsController, make_controller, start_owned, set_up, connect, supported_versions,
}
use tg2sip_webrtc.Gateway.Values.{param, ringing, ok_code, read_extension, rtc_servers_of}
use tg2sip_webrtc.Gateway.Guards.{is_in_state, is_sip_in_state}
use tg2sip_webrtc.Gateway.Actions
use tg2sip_webrtc.Gateway.DialTg.{dial_tg, dial_extension, dial_by_id}
use tg2sip_webrtc.Gateway.Sml.{Sml, process_event_lem}

-- PJSIP takes every port and carries the audio of the call object `object`, whose audio medium is `m`, and ntgcalls does
-- what is asked of it.
pub record Carries (object m : ℕ) (ms : List MediaInfo) (o : Outside) : Type 0 where
  pub gives_media : (t : List Request) → o.pj_answer t (get_media object) ≡ media ms
  pub has_audio : audio_media_from 0 ms ≡ some m
  pub connects_input :
      (t : List Request) → o.pj_answer t (start_transmit_to_input object m) ≡ returned
  pub connects_output :
      (t : List Request) → o.pj_answer t (start_transmit_from_output object m) ≡ returned
  pub takes :
      (t : List Request) (owner : Text) (d : Direction) (call : PortCall)
      → o.pj_answer t (port owner d call) ≡ returned
  pub completes : (t : List Request) (f : NtgFunction) → o.ntg_answer t f ≡ completed

-- The requests, the newest first.
abbrev pub started_for : TgCallsController → List Request → List Request
started_for c t =
    ntg (connect_p2p c.user_id c.rtc_servers supported_versions c.enable_p2p)
    ∷ ntg (skip_exchange c.user_id c.encryption_key c.is_outgoing)
    ∷ ntg (set_playback_sources c.user_id)
    ∷ ntg (set_capture_sources c.user_id)
    ∷ ntg (create_p2p c.user_id)
    ∷ t

-- The ports of the controller of the context `owner`.
abbrev pub ports_for : Text → List Request → List Request
ports_for owner t =
    pj (port owner Direction.output register_media_port)
    ∷ pj (port owner Direction.output (port_info_init (port_info Direction.output)))
    ∷ pj (port owner Direction.output (pool_create (pool_name Direction.output) 2048 512))
    ∷ pj (port owner Direction.input register_media_port)
    ∷ pj (port owner Direction.input (port_info_init (port_info Direction.input)))
    ∷ pj (port owner Direction.input (pool_create (pool_name Direction.input) 2048 512))
    ∷ t

abbrev pub bridged_for : ℕ → ℕ → List Request → List Request
bridged_for object m t =
    pj (start_transmit_from_output object m)
    ∷ pj (start_transmit_to_input object m)
    ∷ pj (get_media object)
    ∷ t

-- The controller after `Start`.
abbrev pub as_started : TgCallsController → TgCallsController
as_started c = record c {
  created = true;
  registered = true;
  input_active = true;
  output_active = true;
  mic_feeder_running = true;
}

-- The controller that `CreateTgVoip` makes from the update in a context with this user and id.
abbrev pub controller_for :
    Settings → ℤ → Text → UpdateCall → List ℕ → List CallServer → TgCallsController
controller_for settings user_id ctx_id u key servers =
    make_controller user_id (take 256 key) u.is_outgoing (rtc_servers_of servers) settings.udp_p2p
      ctx_id

-- A row whose action returns, and whose target has no entry action.
pub ended :
    (m : M Context) (s : State) (ctx : Context) (w v : World)
    → m w ≡ done ctx v
    → noexcept {A = State × Context} (m >>= λ c. pure (s, c)) w ≡ done (s, ctx) v
ended m s ctx w v h = noexcept-done (m >>= λ c. pure (s, c)) w (bind-done m (λ c. pure (s, c)) w h)

module _ (o : Outside) where
  pub start_owned-completed :
      (c : TgCallsController) (w : World)
      → ((t : List Request) (f : NtgFunction) → o.ntg_answer t f ≡ completed)
      → start_owned o c w
        ≡ done
            (as_started c)
            (record w { trace = started_for c w.trace; sinks = assign c.user_id c.ctx_id w.sinks })
  unfolding start_owned set_up
  start_owned-completed c w h = ground (
    arith,
    h w.trace (create_p2p c.user_id),
    h (ntg (create_p2p c.user_id) ∷ w.trace) (set_capture_sources c.user_id),
    h (ntg (set_capture_sources c.user_id) ∷ ntg (create_p2p c.user_id) ∷ w.trace)
        (set_playback_sources c.user_id),
    h
        (ntg (set_playback_sources c.user_id)
          ∷ ntg (set_capture_sources c.user_id)
          ∷ ntg (create_p2p c.user_id)
          ∷ w.trace)
        (skip_exchange c.user_id c.encryption_key c.is_outgoing),
    h
        (ntg (skip_exchange c.user_id c.encryption_key c.is_outgoing)
          ∷ ntg (set_playback_sources c.user_id)
          ∷ ntg (set_capture_sources c.user_id)
          ∷ ntg (create_p2p c.user_id)
          ∷ w.trace)
        (connect_p2p c.user_id c.rtc_servers supported_versions c.enable_p2p),
  )

  make_port-taken :
      (owner : Text) (d : Direction) (w : World)
      → ((t : List Request) (call : PortCall) → o.pj_answer t (port owner d call) ≡ returned)
      → make_port o owner d w
        ≡ done tt (record w {
          trace =
              pj (port owner d register_media_port)
              ∷ pj (port owner d (port_info_init (port_info d)))
              ∷ pj (port owner d (pool_create (pool_name d) 2048 512))
              ∷ w.trace;
        })
  unfolding make_port init_port
  make_port-taken owner d w h =
      let t = pj (port owner d (pool_create (pool_name d) 2048 512)) ∷ w.trace in
      ground (
        arith,
        h t (port_info_init (port_info d)),
        h (pj (port owner d (port_info_init (port_info d))) ∷ t) register_media_port,
      )

  make_ports-taken :
      (owner : Text) (w : World)
      → ((t : List Request) (d : Direction) (call : PortCall)
          → o.pj_answer t (port owner d call) ≡ returned)
      → make_ports o owner w ≡ done tt (record w { trace = ports_for owner w.trace })
  unfolding make_ports
  make_ports-taken owner w h =
      let w₁ = record w {
        trace =
            pj (port owner Direction.input register_media_port)
            ∷ pj (port owner Direction.input (port_info_init (port_info Direction.input)))
            ∷ pj (port owner Direction.input (pool_create (pool_name Direction.input) 2048 512))
            ∷ w.trace;
      } in
      bind-done (make_port o owner Direction.input) _ w
        (make_port-taken owner Direction.input w (λ t. h t Direction.input))
      ∙ ground (arith, make_port-taken owner Direction.output w₁ (λ t. h t Direction.output))

module _ (o : Outside) (settings : Settings) where
  -- `BridgeAudio` on a kept call with a controller.
  pub bridge_audio-connects :
      (m : ℕ) (ms : List MediaInfo) (call : SipCall) (c : TgCallsController) (e : Event)
      (ctx : Context) (w : World)
      → Carries call.object m ms o
      → lookup ctx.sip_call_id w.calls ≡ some call
      → ctx.controller ≡ some c
      → Actions.bridge_audio o settings e ctx w
        ≡ done ctx (record w { trace = bridged_for call.object m w.trace })
  unfolding Actions.bridge_audio Sip.bridge_audio
  bridge_audio-connects m ms call c e ctx w h kept there = ground (
    arith,
    kept,
    there,
    h.gives_media w.trace,
    h.has_audio,
    h.connects_input (pj (get_media call.object) ∷ w.trace),
    h.connects_output
        (pj (start_transmit_to_input call.object m) ∷ pj (get_media call.object) ∷ w.trace),
  )

  -- `CreateTgVoip` for a ready call with a whole key.
  pub create_tg_voip-started :
      (object m : ℕ) (ms : List MediaInfo) (u : UpdateCall) (key : List ℕ)
      (servers : List CallServer) (ctx : Context) (w : World)
      → Carries object m ms o
      → ltb (length key) 256 ≡ false
      → create_tg_voip o settings (tg_call (record u { state = ready key servers })) ctx w ≡ (
          let c = controller_for settings ctx.user_id ctx.id u key servers in
          done
            (record ctx { controller = some (as_started c) })
            (record w {
              trace = started_for c (ports_for ctx.id w.trace);
              sinks = assign ctx.user_id ctx.id w.sinks;
            }))
  unfolding create_tg_voip create_tg_voip_for start_voip connect make_controller
  create_tg_voip-started object m ms u key servers ctx w h whole =
      let c = controller_for settings ctx.user_id ctx.id u key servers in
      let w' = record w { trace = ports_for ctx.id w.trace } in
      rw whole (
        bind-done (make_ports o ctx.id) _ w (make_ports-taken o ctx.id w (λ t. h.takes t ctx.id))
        ∙ bind-done (start_owned o c) _ w' (start_owned-completed o c w' h.completes))
