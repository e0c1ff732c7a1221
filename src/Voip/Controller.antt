-- ===== src/Voip/Controller.antt =====
-- tg2sip/voip/controller.h and controller.cpp (`TgCallsController`: one call from set-up to
-- teardown) and tg2sip/voip/ntgcalls_runtime.h and .cpp (`NtgCallsRuntime`: the table of sinks and
-- the two ways of calling ntgcalls).
pub mod Lifecycle
pub mod Audio
mod Tests
use tg2sip_webrtc.Prelude.{
  ℕ, Option, none, some, List, [], ◌∷◌, ◌++◌, Text, text, ℤ, pos, Bool, true, false, if◌then◌else◌,
  lookup, assign, erase, int_eq, ◌==◌,
}
use tg2sip_webrtc.Utils.{to_string}
use tg2sip_webrtc.RingBuffer.{RingBuffer}
use tg2sip_webrtc.RingBuffer
use tg2sip_webrtc.Outside.{
  Outside, RtcServer, NtgFunction, NtgResult, completed, rejected, errored, create_p2p,
  set_capture_sources, set_playback_sources, skip_exchange, connect_p2p, stop, send_signaling_data,
}
use tg2sip_webrtc.Voip.MediaPorts.{destroy_ports}
use tg2sip_webrtc.World.{
  World, M, ◌>>=◌, ◌>>◌, pure, throw, done, threw, undefined, modify, emit, ask_ntg, catching,
  noexcept, no_meaning, runtime_error, signaling_data_emitted,
}

abbrev ring_buffer_capacity : ℕ
ring_buffer_capacity = 48000

-- `SupportedVersions`
abbrev pub supported_versions : List Text
supported_versions = text "8.0.0" ∷ text "9.0.0" ∷ []

-- `ctx_id` is what the callback `on_signaling_data` captures.
pub record TgCallsController : Type 0 where
  pub user_id : ℤ
  pub encryption_key : List ℕ
  pub is_outgoing : Bool
  pub rtc_servers : List RtcServer
  pub enable_p2p : Bool
  pub ctx_id : Text
  pub mic_buffer : RingBuffer
  pub playout_buffer : RingBuffer
  pub input_active : Bool
  pub output_active : Bool
  pub registered : Bool
  pub created : Bool
  pub mic_feeder_running : Bool
  pub max_abs_since_start : ℕ
  pub frames_received : ℕ

-- The object without its ports, which `make_ports` makes.
unfoldable pub make_controller :
    ℤ → List ℕ → Bool → List RtcServer → Bool → Text → TgCallsController
make_controller user_id encryption_key is_outgoing rtc_servers enable_p2p ctx_id = record {
  user_id = user_id;
  encryption_key = encryption_key;
  is_outgoing = is_outgoing;
  rtc_servers = rtc_servers;
  enable_p2p = enable_p2p;
  ctx_id = ctx_id;
  mic_buffer = RingBuffer.init ring_buffer_capacity;
  playout_buffer = RingBuffer.init ring_buffer_capacity;
  input_active = false;
  output_active = false;
  registered = false;
  created = false;
  mic_feeder_running = false;
  max_abs_since_start = 0;
  frames_received = 0;
}

-- `NtgCallsRuntime::Register`
abbrev register : ℤ → Text → M (Unit {0})
register user_id sink = modify λ w. record w { sinks = assign user_id sink w.sinks }

-- `NtgCallsRuntime::Unregister`
abbrev unregister : ℤ → M (Unit {0})
unregister user_id = modify λ w. record w { sinks = erase user_id w.sinks }

-- `NtgCallsRuntime::SignalingTrampoline`, into `TgCallsController::OnSignalingData`.
unfoldable pub signaling_trampoline : ℤ → List ℕ → M (Unit {0})
signaling_trampoline user_id bytes w = elim (lookup user_id w.sinks) [
  | none ↦ done tt w
  | some ctx_id ↦ emit (signaling_data_emitted ctx_id bytes) w
]

-- `NtgCallsRuntime::FramesTrampoline`: the sink, if any, whose `OnFrames` takes the frames.
unfoldable pub frames_trampoline : ℤ → World → Option Text
frames_trampoline user_id w = lookup user_id w.sinks

-- How `NtgCallsRuntime::CallBlocking` ends.
abbrev pub blocking_result : NtgResult → M (Unit {0})
blocking_result completed = pure tt
blocking_result (rejected code) =
    throw (runtime_error (text "ntgcalls call rejected synchronously, code " ++ to_string code))
blocking_result (errored code message) =
    if code == pos 0
    then pure tt
    else throw (runtime_error (text "ntgcalls error " ++ to_string code ++ text ": " ++ message))

module _ (o : Outside) where
  -- `NtgCallsRuntime::CallBlocking`
  abbrev pub call_blocking : NtgFunction → M (Unit {0})
  call_blocking f = do r ← ask_ntg o f; blocking_result r

  -- `NtgCallsRuntime::CallDetached`: the outcome is dropped.
  abbrev pub call_detached : NtgFunction → M (Unit {0})
  call_detached f = do r ← ask_ntg o f; pure tt

  -- `TgCallsController::Start` behind the creation of the call.
  unfoldable pub set_up : TgCallsController → M TgCallsController
  set_up c = do
    call_blocking (set_capture_sources c.user_id)
    call_blocking (set_playback_sources c.user_id)
    call_blocking (skip_exchange c.user_id c.encryption_key c.is_outgoing)
    call_blocking (connect_p2p c.user_id c.rtc_servers supported_versions c.enable_p2p)
    register c.user_id c.ctx_id
    pure (record c {
      created = true;
      registered = true;
      input_active = true;
      output_active = true;
      mic_feeder_running = true;
    })

  -- `TgCallsController::Start`
  unfoldable pub start : TgCallsController → M TgCallsController
  unfolding set_up
  start c = call_blocking (create_p2p c.user_id) >> set_up c

  -- `Start` of a controller whose only owner goes when `Start` throws: the destructor then stops the
  -- call if it was created, and the ports are destroyed. An exception out of a destructor ends the
  -- process.
  unfoldable pub start_owned : TgCallsController → M TgCallsController
  unfolding set_up
  start_owned c =
      catching (call_blocking (create_p2p c.user_id)) (λ x. destroy_ports o c.ctx_id >> throw x)
      >> catching (set_up c)
          λ x. noexcept (call_blocking (stop c.user_id)) >> destroy_ports o c.ctx_id >> throw x

  -- `TgCallsController::Connect`
  unfoldable pub connect : TgCallsController → M TgCallsController
  connect c = pure c

  -- `Stop` up to the unregistering.
  unfoldable quiesce : TgCallsController → M TgCallsController
  quiesce c =
      if c.registered
      then (do
        unregister c.user_id
        pure (record c {
          mic_feeder_running = false;
          input_active = false;
          output_active = false;
          registered = false;
        }))
      else pure
          (record c { mic_feeder_running = false; input_active = false; output_active = false })

  -- `TgCallsController::Stop`
  unfoldable pub stop_controller : TgCallsController → M TgCallsController
  unfolding quiesce
  stop_controller c = do
    c' ← quiesce c
    if c'.created
        then (do call_blocking (stop c'.user_id); pure (record c' { created = false }))
        else pure c'

  -- `TgCallsController::UpdateSignaling`
  unfoldable pub update_signaling : TgCallsController → List ℕ → M (Unit {0})
  update_signaling c bytes =
      if c.created then call_detached (send_signaling_data c.user_id bytes) else pure tt
