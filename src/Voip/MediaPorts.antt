-- ===== src/Voip/MediaPorts.antt =====
-- tg2sip/voip/audio_bridge.cpp: the constructors and the destructors of `SoftwareAudioInput` and
-- `SoftwareAudioOutput`, and those of both as the members of a `TgCallsController`
-- (tg2sip/voip/controller.h).
use tg2sip_webrtc.Prelude.{ℕ, Text, text, if◌then◌else◌}
use tg2sip_webrtc.Outside.{
  Outside, Direction, PortInfo, port, failed, pool_create, port_info_init, register_media_port,
  unregister_media_port, port_destroy, pool_release,
}
use tg2sip_webrtc.World.{
  M, ◌>>=◌, ◌>>◌, pure, throw, no_meaning, catching, noexcept, note_pj, ask_pj,
}

-- `SAMPLES_PER_FRAME` and `FRAME_SAMPLES`: 10 ms at 48 kHz.
abbrev pub frame_samples : ℕ
frame_samples = 480

unfoldable pub port_info : Direction → PortInfo
port_info Direction.input = record {
  name = text "voip-input";
  signature = text "TI";
  clock_rate = 48000;
  channel_count = 1;
  bits_per_sample = 16;
  samples_per_frame = frame_samples;
}
port_info Direction.output = record {
  name = text "voip-output";
  signature = text "TO";
  clock_rate = 48000;
  channel_count = 1;
  bits_per_sample = 16;
  samples_per_frame = frame_samples;
}

abbrev pub pool_name : Direction → Text
pool_name Direction.input = text "voip-input%p"
pool_name Direction.output = text "voip-output%p"

module _ (o : Outside) where
  -- `pjmedia_port_info_init`, whose status is asserted; a failed assertion is given no meaning.
  unfoldable pub init_port : Text → Direction → M (Unit {0})
  init_port owner d w =
      let call = port owner d (port_info_init (port_info d)) in
      elim (o.pj_answer w.trace call) [
        | failed reason ↦ if o.asserts then no_meaning w else note_pj call w
        | _ ↦ note_pj call w
      ]

  -- The constructors. `registerMediaPort` may throw; the pool is then left behind.
  unfoldable pub make_port : Text → Direction → M (Unit {0})
  unfolding init_port
  make_port owner d = do
    note_pj (port owner d (pool_create (pool_name d) 2048 512))
    init_port owner d
    r ← ask_pj o (port owner d register_media_port)
    pure tt

  -- The destructors.
  unfoldable pub destroy_port : Text → Direction → M (Unit {0})
  destroy_port owner d = noexcept (do
    r ← ask_pj o (port owner d unregister_media_port)
    note_pj (port owner d port_destroy)
    note_pj (port owner d pool_release))

  -- The members of a new controller, in the order of their declarations.
  unfoldable pub make_ports : Text → M (Unit {0})
  unfolding make_port destroy_port
  make_ports owner =
      make_port owner Direction.input
      >> catching (make_port owner Direction.output)
          λ e. destroy_port owner Direction.input >> throw e

  unfoldable pub destroy_ports : Text → M (Unit {0})
  unfolding destroy_port
  destroy_ports owner = destroy_port owner Direction.output >> destroy_port owner Direction.input
