-- ===== src/Voip/Ports/Tests.antt =====
-- tg2sip/voip/audio_bridge.cpp: a frame out of an output port.
use tg2sip_webrtc.Prelude.{◌≡◌, ◌+◌, refl, true, [], length, arith}
use tg2sip_webrtc.RingBuffer
use tg2sip_webrtc.RingBuffer.Inv.{init-IsValid}
use tg2sip_webrtc.Voip.Controller.{TgCallsController}
use tg2sip_webrtc.Voip.Controller.Audio.{get_frame, MediaFrame}
use tg2sip_webrtc.Voip.Ports.{start_port, stop_port, input_get_frame, output_put_frame}
use tg2sip_webrtc.Outside.{Direction}
use tg2sip_webrtc.Voip.MediaPorts.{port_info}
use tg2sip_webrtc.Voip.Ports.Format.{frame_bytes, get_frame-format}
use tg2sip_webrtc.Examples.{controller}

-- A controller with buffers of four samples.
abbrev small : TgCallsController
small = record controller { playout_buffer = RingBuffer.init 4 }

get_frame-format_example :
    (length (get_frame (start_port Direction.output small)).0.buf
      ≡ (port_info Direction.output).samples_per_frame)
    × ((get_frame (start_port Direction.output small)).0.size
        ≡ frame_bytes (port_info Direction.output))
    × ((get_frame (stop_port Direction.output small)).0.buf ≡ [])
    × ((get_frame (stop_port Direction.output small)).0.size ≡ 0)
get_frame-format_example = get_frame-format small (init-IsValid 4 (omega arith) (omega arith))

-- The other callbacks move nothing.
abbrev some_frame : MediaFrame
some_frame = record { is_audio = true; buf = []; size = 960 }

nothing_moved : (input_get_frame some_frame).size + (output_put_frame some_frame).size ≡ 0
unfolding input_get_frame output_put_frame
nothing_moved = refl
