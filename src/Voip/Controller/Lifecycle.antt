-- ===== src/Voip/Controller/Lifecycle.antt =====
-- tg2sip/voip/controller.cpp: what `Start` and `Stop` leave behind, and who still hears ntgcalls.
use tg2sip_webrtc.Prelude.{
  ◌≡◌, List, [], ◌∷◌, ◌++◌, some, none, ℕ, true, false, ==_iff, int_eq, if◌then◌else◌, lookup,
  lookup-assign, lookup-erase, arith,
}
use tg2sip_webrtc.Outside.{
  Outside, ntg, create_p2p, set_capture_sources, set_playback_sources, skip_exchange, connect_p2p,
  stop,
}
use tg2sip_webrtc.World.{World, done}
use tg2sip_webrtc.Voip.Controller.{
  TgCallsController, start, set_up, stop_controller, signaling_trampoline, frames_trampoline,
  supported_versions,
}

-- A controller that hears and sends nothing any more.
pub record IsStopped (c : TgCallsController) : Type 0 where
  pub not_created : c.created ≡ false
  pub not_registered : c.registered ≡ false
  pub feeder_ended : c.mic_feeder_running ≡ false
  pub input_idle : c.input_active ≡ false
  pub output_idle : c.output_active ≡ false

module _ (o : Outside) where
  -- `Start` that returns has made the five set-up calls in order and nothing else, and ntgcalls'
  -- signaling for the user now reaches this controller's context.
  start_lem :
      (c : TgCallsController) (w : World) {c' : TgCallsController} {w' : World}
      → start o c w ≡ done c' w'
      → (w'.trace
          ≡ ntg (connect_p2p c.user_id c.rtc_servers supported_versions c.enable_p2p)
            ∷ ntg (skip_exchange c.user_id c.encryption_key c.is_outgoing)
            ∷ ntg (set_playback_sources c.user_id)
            ∷ ntg (set_capture_sources c.user_id)
            ∷ ntg (create_p2p c.user_id)
            ∷ w.trace)
        × (lookup c.user_id w'.sinks ≡ some c.ctx_id)
        × (c'.created ≡ true)
        × (c'.registered ≡ true)
  unfolding start set_up
  start_lem c w e =
      ground (arith, lookup-assign c.user_id c.user_id c.ctx_id w.sinks, ==_iff c.user_id c.user_id)

  -- `Stop` that returns leaves the controller stopped, and stopping it again does nothing.
  pub stop_controller-IsStopped :
      (c : TgCallsController) (w : World) {c' : TgCallsController} {w' : World}
      → stop_controller o c w ≡ done c' w'
      → IsStopped c' × (stop_controller o c' w' ≡ done c' w')
  unfolding stop_controller
  stop_controller-IsStopped c w e = ground arith

  -- After `Stop` of a registered controller no signaling data of its user reaches any context.
  signaling_trampoline-stop :
      (c : TgCallsController) (w : World) (bytes : List ℕ) {c' : TgCallsController} {w' : World}
      → c.registered ≡ true
      → stop_controller o c w ≡ done c' w'
      → signaling_trampoline c.user_id bytes w' ≡ done tt w'
  unfolding stop_controller signaling_trampoline
  signaling_trampoline-stop c w bytes h e =
      ground (arith, lookup-erase c.user_id c.user_id w.sinks, ==_iff c.user_id c.user_id)

  -- Nor do frames of its user.
  frames_trampoline-stop :
      (c : TgCallsController) (w : World) {c' : TgCallsController} {w' : World}
      → c.registered ≡ true
      → stop_controller o c w ≡ done c' w'
      → frames_trampoline c.user_id w' ≡ none
  unfolding stop_controller frames_trampoline
  frames_trampoline-stop c w h e =
      ground (arith, lookup-erase c.user_id c.user_id w.sinks, ==_iff c.user_id c.user_id)

  -- `Stop` asks ntgcalls to stop the call if it was created, and asks nothing else.
  pub trace-stop_controller :
      (c : TgCallsController) (w : World) {c' : TgCallsController} {w' : World}
      → stop_controller o c w ≡ done c' w'
      → (w'.trace ≡ (if c.created then ntg (stop c.user_id) ∷ [] else []) ++ w.trace)
        × (w'.calls ≡ w.calls)
  unfolding stop_controller
  trace-stop_controller c w e = ground arith
