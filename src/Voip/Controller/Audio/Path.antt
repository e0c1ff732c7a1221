-- ===== src/Voip/Controller/Audio/Path.antt =====
-- tg2sip/voip/audio_bridge.cpp and controller.cpp: what becomes of the samples on both ways.
use tg2sip_webrtc.Prelude.{
  ℕ, ◌*◌, ◌/◌, ◌-◌, ◌≡◌, ap, List, [], ◌∷◌, ◌++◌, true, min, take, drop, replicate, length, arith,
}
use tg2sip_webrtc.RingBuffer.{RingBuffer, Sample, silence}
use tg2sip_webrtc.RingBuffer
use tg2sip_webrtc.RingBuffer.Inv.{IsValid, contents}
use tg2sip_webrtc.RingBuffer.Refine.{push_refines, pop_refines}
use tg2sip_webrtc.Outside.{Outside, send_external_frame, ntg}
use tg2sip_webrtc.World.{World, done}
use tg2sip_webrtc.Voip.Controller.{TgCallsController, stop_controller}
use tg2sip_webrtc.Voip.Controller.Lifecycle.{stop_controller-IsStopped}
use tg2sip_webrtc.Voip.Controller.Audio.{
  MediaFrame, no_frame, put_frame, get_frame, on_frames, feed_mic,
}

-- A frame with all its samples.
abbrev pub audio : List Sample → MediaFrame
audio samples = record { is_audio = true; buf = samples; size = length samples * 2 }

halve : (n : ℕ) → n * 2 / 2 ≡ n
halve n = omega arith

put_frame-audio :
    (samples : List Sample) (c : TgCallsController)
    → c.input_active ≡ true
    → put_frame (audio samples) c
      ≡ record c { mic_buffer = RingBuffer.push c.mic_buffer samples (length samples) }
unfolding put_frame
put_frame-audio samples c active = ground (arith, halve (length samples))

feed_mic_lem :
    (o : Outside) (c : TgCallsController) (w : World)
    → IsValid c.mic_buffer
    → c.mic_feeder_running ≡ true
    → (c' : TgCallsController) × (w' : World) × (feed_mic o c w ≡ done c' w')
      × (w'.trace
          ≡ ntg (
              send_external_frame c.user_id (
                take 480 (contents c.mic_buffer)
                ++ replicate (480 - length (contents c.mic_buffer)) silence))
            ∷ w.trace)
      × (contents c'.mic_buffer ≡ drop 480 (contents c.mic_buffer))
      × IsValid c'.mic_buffer
unfolding feed_mic
feed_mic_lem o c w v running =
    let (out, left, valid, _) = pop_refines c.mic_buffer v 480 in
    let popped = RingBuffer.pop c.mic_buffer 480 in
    (
      record c { mic_buffer = popped.1 },
      record w { trace = ntg (send_external_frame c.user_id popped.0) ∷ w.trace },
      rw running,
      ap (λ s. ntg (send_external_frame c.user_id s) ∷ w.trace) out,
      left,
      valid,
    )

-- Samples that PJSIP puts into an active port are queued behind those that wait, as far as they
-- fit, and the next round of the microphone thread sends ntgcalls the oldest 480 samples that then
-- wait, padded with silence, and keeps the rest.
pub feed_mic-put_frame :
    (o : Outside) (samples : List Sample) (c : TgCallsController) (w : World)
    → IsValid c.mic_buffer
    → c.input_active ≡ true
    → c.mic_feeder_running ≡ true
    → (waiting : List Sample) × (waiting
        ≡ contents c.mic_buffer
          ++ take
              (min (length samples) (c.mic_buffer.capacity - 1 - length (contents c.mic_buffer)))
              samples)
      × (c' : TgCallsController) × (w' : World) × (feed_mic o (put_frame (audio samples) c) w
          ≡ done c' w')
      × (w'.trace
          ≡ ntg (
              send_external_frame c.user_id
                (take 480 waiting ++ replicate (480 - length waiting) silence))
            ∷ w.trace)
      × (contents c'.mic_buffer ≡ drop 480 waiting)
      × IsValid c'.mic_buffer
feed_mic-put_frame o samples c w v active running =
    let (queued, valid, _) = push_refines c.mic_buffer v samples (length samples) (omega arith) in
    let c₁ : TgCallsController = record c {
      mic_buffer = RingBuffer.push c.mic_buffer samples (length samples);
    } in
    let (c', w', run, sent, left, valid') = feed_mic_lem o c₁ w valid running in
    (
      contents c₁.mic_buffer,
      queued,
      c',
      w',
      rw (put_frame-audio samples c active) run,
      sent,
      left,
      valid',
    )

-- Samples that ntgcalls delivers in one frame are queued behind those that wait, as far as they
-- fit, and the next frame that PJSIP gets from an active port has exactly 480 samples: the oldest
-- that wait, padded with silence.
pub get_frame-on_frames :
    (samples : List Sample) (c : TgCallsController)
    → IsValid c.playout_buffer
    → c.output_active ≡ true
    → (waiting : List Sample) × (waiting
        ≡ contents c.playout_buffer
          ++ take
              (min
                (length samples)
                (c.playout_buffer.capacity - 1 - length (contents c.playout_buffer)))
              samples)
      × ((get_frame (on_frames true (samples ∷ []) c)).0 ≡ record {
        is_audio = true;
        buf = take 480 waiting ++ replicate (480 - length waiting) silence;
        size = 960;
      })
      × (contents (get_frame (on_frames true (samples ∷ []) c)).1.playout_buffer ≡ drop 480 waiting)
      × IsValid (get_frame (on_frames true (samples ∷ []) c)).1.playout_buffer
unfolding get_frame on_frames
get_frame-on_frames samples c v active =
    let (queued, valid, _) =
      push_refines c.playout_buffer v samples (length samples) (omega arith) in
    let (out, left, valid', _) =
      pop_refines (RingBuffer.push c.playout_buffer samples (length samples)) valid 480 in
    (
      contents (RingBuffer.push c.playout_buffer samples (length samples)),
      queued,
      rw active (ap (λ s. record { is_audio = true; buf = s; size = 960 }) out),
      rw active left,
      rw active valid',
    )

-- After `Stop` no port moves a sample: PJSIP's frames are dropped, PJSIP gets no audio, and the
-- microphone thread sends nothing.
stop_controller-silent :
    (o : Outside) (c : TgCallsController) (w : World) (frame : MediaFrame) {c' : TgCallsController}
    {w' : World}
    → stop_controller o c w ≡ done c' w'
    → (put_frame frame c' ≡ c') × (get_frame c' ≡ (no_frame, c')) × (feed_mic o c' w' ≡ done c' w')
unfolding put_frame get_frame feed_mic
stop_controller-silent o c w frame e =
    let stopped = (stop_controller-IsStopped o c w e).0 in ground (arith, stopped)
