-- ===== src/Voip/Controller/Audio.antt =====
-- tg2sip/voip/audio_bridge.cpp (the PJSIP ports `SoftwareAudioInput` and `SoftwareAudioOutput`) and
-- the two ends at ntgcalls in tg2sip/voip/controller.cpp (`OnFrames`, `MicFeederLoop`).
pub mod Path
use tg2sip_webrtc.Prelude.{
  ℕ, ◌+◌, ◌/◌, List, [], ◌∷◌, ℤ, pos, negsuc, Bool, true, false, not, ◌||◌, ltb, if◌then◌else◌, ◌*◌,
  length,
}
use tg2sip_webrtc.RingBuffer.{RingBuffer, Sample}
use tg2sip_webrtc.RingBuffer
use tg2sip_webrtc.Outside.{Outside, send_external_frame}
use tg2sip_webrtc.World.{M, ◌>>=◌, ◌>>◌, pure}
use tg2sip_webrtc.Voip.MediaPorts.{frame_samples}
use tg2sip_webrtc.Voip.Controller.{TgCallsController, call_detached}

-- `pjmedia_frame`: its type is audio, its samples, and its size in bytes.
pub record MediaFrame : Type 0 where
  pub is_audio : Bool
  pub buf : List Sample
  pub size : ℕ

abbrev pub no_frame : MediaFrame
no_frame = record { is_audio = false; buf = []; size = 0 }

-- `SoftwareAudioInput::PutFrameCallback`
unfoldable pub put_frame : MediaFrame → TgCallsController → TgCallsController
put_frame frame c =
    if not frame.is_audio
    then c
    else if not c.input_active
    then c
    else record c { mic_buffer = RingBuffer.push c.mic_buffer frame.buf (frame.size / 2) }

-- `SoftwareAudioOutput::GetFrameCallback`
unfoldable pub get_frame : TgCallsController → MediaFrame × TgCallsController
get_frame c =
    if not c.output_active
    then (no_frame, c)
    else (let popped = RingBuffer.pop c.playout_buffer frame_samples in
        (
          record { is_audio = true; buf = popped.0; size = frame_samples * 2 },
          record c { playout_buffer = popped.1 },
        ))

abbrev abs : Sample → ℕ
abs (pos n) = n
abs (negsuc n) = n + 1

unfoldable max_abs : ℕ → List Sample → ℕ
max_abs m [] = m
max_abs m (s ∷ samples) = max_abs (if ltb m (abs s) then abs s else m) samples

-- `TgCallsController::OnFrames`; a frame is its samples, `wanted` says that the mode is playback
-- and the device the microphone.
unfoldable pub on_frames : Bool → List (List Sample) → TgCallsController → TgCallsController
unfolding max_abs
on_frames false frames c = c
on_frames true [] c = c
on_frames true (samples ∷ frames) c = on_frames true frames (record c {
  playout_buffer = RingBuffer.push c.playout_buffer samples (length samples);
  max_abs_since_start = max_abs c.max_abs_since_start samples;
  frames_received = c.frames_received + 1;
})

-- One round of `TgCallsController::MicFeederLoop`, without the sleep.
unfoldable pub feed_mic : Outside → TgCallsController → M TgCallsController
feed_mic o c =
    if c.mic_feeder_running
    then (let popped = RingBuffer.pop c.mic_buffer frame_samples in
        do
          call_detached o (send_external_frame c.user_id popped.0)
          pure (record c { mic_buffer = popped.1 }))
    else pure c
