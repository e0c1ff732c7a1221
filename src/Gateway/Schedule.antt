-- ===== src/Gateway/Schedule.antt =====
-- tg2sip/gateway.cpp, the loop of `Gateway::start`: rounds, and between them the events that the
-- threads of TDLib, PJSIP and ntgcalls emplace.
pub mod Rounds
pub mod Taken
use tg2sip_webrtc.Prelude.{ℕ, zero, suc, some, List, [], ◌∷◌}
use tg2sip_webrtc.Outside.{Outside}
use tg2sip_webrtc.OptionalQueue
use tg2sip_webrtc.World.{World, M, pure, ◌>>=◌, TgUpdate, SipEvent, InternalEvent}
use tg2sip_webrtc.Settings.{Settings}
use tg2sip_webrtc.Gateway.Sml.{Sml}
use tg2sip_webrtc.Gateway.Process.{Gateway, tick}

-- What another thread emplaces.
pub data Arrival : Type 0 where
  from_tdlib : TgUpdate → Arrival
  from_pjsip : SipEvent → Arrival
  from_ntgcalls : InternalEvent → Arrival

unfoldable pub enqueue : Arrival → World → World
unfolding OptionalQueue.emplace
enqueue (from_tdlib u) w = record w { tg_events = OptionalQueue.emplace (some u) w.tg_events }
enqueue (from_pjsip e) w = record w { sip_events = OptionalQueue.emplace (some e) w.sip_events }
enqueue (from_ntgcalls e) w = record w {
  internal_events = OptionalQueue.emplace (some e) w.internal_events;
}

pub data Happening : Type 0 where
  round : Happening
  arrives : Arrival → Happening

unfoldable pub rounds : List Happening → ℕ
rounds [] = 0
rounds (round ∷ hs) = suc (rounds hs)
rounds (arrives a ∷ hs) = rounds hs

-- `while (!e_shutdown)`, up to some moment.
module _ (sml : Sml) (o : Outside) (settings : Settings) where
  unfoldable pub run : List Happening → Gateway → M Gateway
  unfolding tick enqueue
  run [] g = pure g
  run (round ∷ hs) g = tick sml o settings g >>= run hs
  run (arrives a ∷ hs) g = λ w. run hs g (enqueue a w)
