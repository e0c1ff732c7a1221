-- ===== src/Gateway/Schedule/Rounds.antt =====
-- tg2sip/gateway.cpp, the loop of `Gateway::start`: what a round takes out of the queues.
use tg2sip_webrtc.Prelude.{◌≡◌, ◌∙◌, ap, Option}
use tg2sip_webrtc.Outside.{Outside}
use tg2sip_webrtc.OptionalQueue
use tg2sip_webrtc.World.{World, done, M, >>=-eq-done}
use tg2sip_webrtc.Settings.{Settings}
use tg2sip_webrtc.Gateway.Sml.{Sml}
use tg2sip_webrtc.Gateway.Process.{
  Gateway, tick, handle, process_internal, process_update, process_sip,
}
use tg2sip_webrtc.Gateway.Frame.Rules.{SameQueues}
use tg2sip_webrtc.Gateway.Numbers.{IsNumbered}
use tg2sip_webrtc.Gateway.Numbers.Handlers.{
  Orderly, process_internal-Orderly, process_update-Orderly, process_sip-Orderly, handle-Orderly,
}

module _ (sml : Sml) (o : Outside) (settings : Settings) where
  -- The handling of a popped event, when it returns.
  handle-done :
      {T : Type 0} (f : T → Gateway → M Gateway) (event : Option T) (g : Gateway) (w : World)
      {g' : Gateway} {w' : World}
      → ((t : T) → Orderly (f t))
      → IsNumbered g
      → handle sml o settings f event g w ≡ done g' w'
      → IsNumbered g' × SameQueues w w'
  handle-done f event g w orderly h e =
      rw e at (handle-Orderly sml o settings f orderly event g w h)

  -- The three parts of a round, and what they leave of the other threads' queues.
  pub record Parts (g : Gateway) (w : World) (g' : Gateway) (w' : World) : Type 0 where
    pub after_internal : Gateway × World
    pub after_update : Gateway × World
    pub internal_part :
        handle sml o settings
          (process_internal sml o settings)
          (OptionalQueue.pop w.internal_events).0
          g
          (record w { internal_events = (OptionalQueue.pop w.internal_events).1 })
        ≡ done after_internal.0 after_internal.1
    pub tg_queue : after_internal.1.tg_events ≡ w.tg_events
    pub tg_part :
        handle sml o settings
          (process_update sml o settings)
          (OptionalQueue.pop after_internal.1.tg_events).0
          after_internal.0
          (record after_internal.1 { tg_events = (OptionalQueue.pop after_internal.1.tg_events).1 })
        ≡ done after_update.0 after_update.1
    pub sip_queue : after_update.1.sip_events ≡ w.sip_events
    pub sip_part :
        handle sml o settings
          (process_sip sml o settings)
          (OptionalQueue.pop after_update.1.sip_events).0
          after_update.0
          (record after_update.1 { sip_events = (OptionalQueue.pop after_update.1.sip_events).1 })
        ≡ done g' w'
    pub numbered : IsNumbered g'
    pub tg_rest : w'.tg_events ≡ (OptionalQueue.pop w.tg_events).1
    pub sip_rest : w'.sip_events ≡ (OptionalQueue.pop w.sip_events).1

  pub tick-Parts :
      (g : Gateway) (w : World) {g' : Gateway} {w' : World}
      → IsNumbered g
      → tick sml o settings g w ≡ done g' w'
      → Parts g w g' w'
  unfolding tick
  tick-Parts g w {g'} {w'} h e =
      let on_internal = process_internal sml o settings in
      let on_update = process_update sml o settings in
      let on_sip = process_sip sml o settings in
      let (g₁, w₁, first, rest₁) =
        >>=-eq-done (handle sml o settings on_internal (OptionalQueue.pop w.internal_events).0 g) _
          _ e in
      let (n₁, (t₁, s₁)) =
        handle-done on_internal _ g _ (process_internal-Orderly sml o settings) h first in
      let (g₂, w₂, second, third) =
        >>=-eq-done (handle sml o settings on_update (OptionalQueue.pop w₁.tg_events).0 g₁) _ _
          rest₁ in
      let (n₂, (t₂, s₂)) =
        handle-done on_update _ g₁ _ (process_update-Orderly sml o settings) n₁ second in
      let (n₃, (t₃, s₃)) =
        handle-done on_sip _ g₂ _ (process_sip-Orderly sml o settings) n₂ third in
      record {
        after_internal = (g₁, w₁);
        after_update = (g₂, w₂);
        internal_part = first;
        tg_queue = t₁;
        tg_part = second;
        sip_queue = s₂ ∙ s₁;
        sip_part = third;
        numbered = n₃;
        tg_rest = t₃ ∙ t₂ ∙ ap (λ q. (OptionalQueue.pop q).1) t₁;
        sip_rest = s₃ ∙ ap (λ q. (OptionalQueue.pop q).1) (s₂ ∙ s₁);
      }
