-- ===== src/Voip/Ports.antt =====
-- tg2sip/voip/audio_bridge.h and audio_bridge.cpp: how the two ports are started and stopped, and
-- the callback of each that moves no samples. Voip.MediaPorts has their making and destruction,
-- Voip.Controller.Audio the callbacks that move samples.
mod Tests
pub mod Format
use tg2sip_webrtc.Prelude.{Bool, true, false}
use tg2sip_webrtc.Outside.{Direction}
use tg2sip_webrtc.Voip.Controller.{TgCallsController}
use tg2sip_webrtc.Voip.Controller.Audio.{MediaFrame}

-- `Start` and `Stop` of the port, as a member of its controller.
abbrev set_active : Direction → Bool → TgCallsController → TgCallsController
set_active Direction.input active c = record c { input_active = active }
set_active Direction.output active c = record c { output_active = active }

unfoldable pub start_port : Direction → TgCallsController → TgCallsController
start_port d c = set_active d true c

unfoldable pub stop_port : Direction → TgCallsController → TgCallsController
stop_port d c = set_active d false c

-- `SoftwareAudioInput::GetFrameCallback`: PJSIP gets nothing out of the input.
unfoldable pub input_get_frame : MediaFrame → MediaFrame
input_get_frame frame = record frame { is_audio = false; size = 0 }

-- `SoftwareAudioOutput::PutFrameCallback`: PJSIP puts nothing into the output.
unfoldable pub output_put_frame : MediaFrame → MediaFrame
output_put_frame frame = record frame { is_audio = false; size = 0 }
