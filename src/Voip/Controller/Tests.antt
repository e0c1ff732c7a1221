-- ===== src/Voip/Controller/Tests.antt =====
-- tg2sip/voip/controller.cpp: one controller started and stopped.
use tg2sip_webrtc.Prelude.{
  ◌≡◌, refl, List, [], ◌∷◌, ◌++◌, pos, int_eq, true, ◌-◌, min, take, drop, replicate, length, arith,
}
use tg2sip_webrtc.Outside.{ntg, send_external_frame}
use tg2sip_webrtc.World.{World, done}
use tg2sip_webrtc.Voip.Controller.{TgCallsController, make_controller}
use tg2sip_webrtc.RingBuffer
use tg2sip_webrtc.RingBuffer.{Sample, silence}
use tg2sip_webrtc.RingBuffer.Inv.{IsValid, contents, init-IsValid}
use tg2sip_webrtc.Voip.Controller.Audio.{put_frame, get_frame, on_frames, feed_mic}
use tg2sip_webrtc.Voip.Controller.Audio.Path.{audio, feed_mic-put_frame, get_frame-on_frames}
use tg2sip_webrtc.Examples.{calm, world, controller}

-- The controller as `Start` returns it.
abbrev started : TgCallsController
started = record controller {
  created = true;
  registered = true;
  input_active = true;
  output_active = true;
  mic_feeder_running = true;
}

-- A running controller with buffers of four samples.
abbrev small : TgCallsController
small = record started { mic_buffer = RingBuffer.init 4; playout_buffer = RingBuffer.init 4 }

small-IsValid : IsValid (RingBuffer.init 4)
small-IsValid = init-IsValid 4 (omega arith) (omega arith)

abbrev samples : List Sample
samples = pos 7 ∷ pos 8 ∷ []

feed_mic-put_frame_example :
    (waiting : List Sample) × (waiting
      ≡ contents (RingBuffer.init 4)
        ++ take
            (min 2 ((RingBuffer.init 4).capacity - 1 - length (contents (RingBuffer.init 4))))
            samples)
    × (c' : TgCallsController) × (w' : World) × (feed_mic calm
          (put_frame (audio samples) small)
          world
        ≡ done c' w')
    × (w'.trace
        ≡ ntg (
            send_external_frame
              (pos 12)
              (take 480 waiting ++ replicate (480 - length waiting) silence))
          ∷ [])
    × (contents c'.mic_buffer ≡ drop 480 waiting)
    × IsValid c'.mic_buffer
unfolding make_controller
feed_mic-put_frame_example = feed_mic-put_frame calm samples small world small-IsValid refl refl

get_frame-on_frames_example :
    IsValid (get_frame (on_frames true (samples ∷ []) small)).1.playout_buffer
get_frame-on_frames_example = (get_frame-on_frames samples small small-IsValid refl).4
