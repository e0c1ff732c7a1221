-- ===== src/Voip/Ports/Format.antt =====
-- tg2sip/voip/audio_bridge.cpp, controller.cpp: the frames against the format that the ports announce.
use tg2sip_webrtc.Prelude.{
  ℕ, ◌-◌, ◌*◌, ◌/◌, ◌≡◌, refl, ap, ◌∙◌, List, [], ◌++◌, length, take, replicate, arith,
  length-append, length-take, length-replicate,
}
use tg2sip_webrtc.RingBuffer.{Sample, silence}
use tg2sip_webrtc.RingBuffer.Inv.{IsValid, contents}
use tg2sip_webrtc.RingBuffer.Refine.{pop_refines}
use tg2sip_webrtc.Voip.Controller.{TgCallsController}
use tg2sip_webrtc.Voip.Controller.Audio.{get_frame}
use tg2sip_webrtc.Outside.{Direction, PortInfo}
use tg2sip_webrtc.Voip.MediaPorts.{port_info}
use tg2sip_webrtc.Voip.Ports.{stop_port, start_port}

-- The bytes of a frame in a format.
abbrev pub frame_bytes : PortInfo → ℕ
frame_bytes info = info.samples_per_frame * info.channel_count * info.bits_per_sample / 8

length-padded :
    (n : ℕ) (xs : List Sample) → length (take n xs ++ replicate (n - length xs) silence) ≡ n
length-padded n xs = omega (
  arith,
  length-append {0} (take n xs) (replicate (n - length xs) silence),
  length-take {0} n xs,
  length-replicate {0} (n - length xs) silence,
)

-- Between its start and its stop, the output port hands PJSIP frames of exactly the samples and bytes
-- that it has announced, however few samples wait; after its stop, frames with no samples.
pub get_frame-format :
    (c : TgCallsController)
    → IsValid c.playout_buffer
    → (length (get_frame (start_port Direction.output c)).0.buf
        ≡ (port_info Direction.output).samples_per_frame)
      × ((get_frame (start_port Direction.output c)).0.size
          ≡ frame_bytes (port_info Direction.output))
      × ((get_frame (stop_port Direction.output c)).0.buf ≡ [])
      × ((get_frame (stop_port Direction.output c)).0.size ≡ 0)
unfolding get_frame start_port stop_port port_info
get_frame-format c v = (
  ap length (pop_refines c.playout_buffer v 480).0 ∙ length-padded 480 (contents c.playout_buffer),
  refl,
  refl,
  refl,
)
