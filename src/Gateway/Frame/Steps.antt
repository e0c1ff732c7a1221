-- ===== src/Gateway/Frame/Steps.antt =====
-- tg2sip/gateway.cpp: every action but `DialTg`: the id of its context, and the other threads' queues.

use tg2sip_webrtc.Voip.MediaPorts.{make_port, init_port, destroy_port, make_ports, destroy_ports}
use tg2sip_webrtc.Prelude.{
  Text, ltb, length, Bool-cases, inl, inr, ℕ, ◌≡◌, refl, Option, none, some, arith, List,
}
use tg2sip_webrtc.Outside.{
  stop, Direction, Outside, CallState, pending, discarded, other_state, CallServer, ready,
  NtgFunction, set_capture_sources, set_playback_sources, skip_exchange, connect_p2p, create_p2p,
  UpdateCall,
}
use tg2sip_webrtc.World.{Exception, ◌>>◌, throw, catching, noexcept, World, M, incoming_call, ◌>>=◌}
use tg2sip_webrtc.Gateway.Actions.{
  start_voip, store_sip_id, store_tg_id, store_tg_user_id, clean_tg_id, clean_sip_id,
  set_hangup_prm, stop_voip, discard_tg, hang_up_sip, clean_up, dial_sip_as, dial_sip, answer_tg,
  accept_extension, accept_incoming_sip, answer_sip, create_tg_voip_for, create_tg_voip, dial_dtmf,
}
use tg2sip_webrtc.Gateway.Frame.Rules.{
  Ends-noexcept, Ends-bind, Ends-catching, Quiet, Framed, FramedAction, Framed-then,
}
use tg2sip_webrtc.Settings.{Settings}
use tg2sip_webrtc.Sip.{
  dial, answer_call, hang_up, bridge_audio, dial_digits, audio_media, connect_audio,
}
use tg2sip_webrtc.Voip.Controller.{
  TgCallsController, call_blocking, supported_versions, start_owned, set_up, connect,
  stop_controller,
}
use tg2sip_webrtc.Gateway.Context.{Context, tg_call, tg_message, sip}
use tg2sip_webrtc.Gateway.Values.{read_extension}
use tg2sip_webrtc.Gateway.Actions
use tg2sip_webrtc.Sip

module _ (o : Outside) (settings : Settings) where
  stop_voip-Framed : (ctx : Context) (w : World) → Framed ctx.id w (stop_voip o settings ctx w)
  unfolding stop_voip stop_controller
  stop_voip-Framed ctx w = ground arith

  discard_tg-Framed : (ctx : Context) (w : World) → Framed ctx.id w (discard_tg o settings ctx w)
  unfolding discard_tg
  discard_tg-Framed ctx w = ground arith

  hang_up_sip-Framed : (ctx : Context) (w : World) → Framed ctx.id w (hang_up_sip o settings ctx w)
  unfolding hang_up_sip hang_up
  hang_up_sip-Framed ctx w = ground arith

  call_blocking-Quiet : (f : NtgFunction) (w : World) → Quiet w (call_blocking o f w)
  call_blocking-Quiet f w = ground arith

  -- A blocking ntgcalls call, and then the rest.
  then_ntg {ℓ} :
      {A : Type ℓ} (f : NtgFunction) (k : Unit {0} → M A) (w : World)
      → ((v : World) → Quiet v (k tt v))
      → Quiet w ((call_blocking o f >>= k) w)
  then_ntg f k w h =
      Ends-bind (λ _. Unit {0}) (λ _. Unit {0}) (call_blocking o f) k w (call_blocking-Quiet f w)
        λ _ v _. h v

  set_up-Quiet : (c : TgCallsController) (w : World) → Quiet w (set_up o c w)
  unfolding set_up
  set_up-Quiet c w = then_ntg (set_capture_sources c.user_id) _ w λ w.
      then_ntg (set_playback_sources c.user_id) _ w λ w.
        then_ntg (skip_exchange c.user_id c.encryption_key c.is_outgoing) _ w λ w.
          then_ntg (connect_p2p c.user_id c.rtc_servers supported_versions c.enable_p2p) _ w
            λ w. (tt, (refl, refl))

  make_port-Quiet : (owner : Text) (d : Direction) (w : World) → Quiet w (make_port o owner d w)
  unfolding make_port init_port
  make_port-Quiet owner d w = ground arith

  destroy_port-Quiet :
      (owner : Text) (d : Direction) (w : World) → Quiet w (destroy_port o owner d w)
  unfolding destroy_port
  destroy_port-Quiet owner d w = ground arith

  make_ports-Quiet : (owner : Text) (w : World) → Quiet w (make_ports o owner w)
  unfolding make_ports
  make_ports-Quiet owner w =
      Ends-bind (λ _. Unit {0}) (λ _. Unit {0}) (make_port o owner Direction.input) _ w
        (make_port-Quiet owner Direction.input w)
        λ _ v _.
          Ends-catching (λ _. Unit {0}) (make_port o owner Direction.output) _ v
            (make_port-Quiet owner Direction.output v)
            λ e u.
              Ends-bind (λ _. Unit {0}) (λ _. Unit {0}) (destroy_port o owner Direction.input) _ u
                (destroy_port-Quiet owner Direction.input u) λ _ t _. (refl, refl)

  pub destroy_ports-Quiet : (owner : Text) (w : World) → Quiet w (destroy_ports o owner w)
  unfolding destroy_ports destroy_port
  destroy_ports-Quiet owner w = ground arith

  dropped :
      (owner : Text) (x : Exception) (w : World)
      → Quiet w ((destroy_ports o owner >> throw {A = Unit {0}} x) w)
  dropped owner x w =
      Ends-bind (λ _. Unit {0}) (λ _. Unit {0}) (destroy_ports o owner) _ w
        (destroy_ports-Quiet owner w) λ _ v _. (refl, refl)

  start_owned-Quiet : (c : TgCallsController) (w : World) → Quiet w (start_owned o c w)
  unfolding start_owned
  start_owned-Quiet c w =
      Ends-bind (λ _. Unit {0}) (λ _. Unit {0})
        (catching (call_blocking o (create_p2p c.user_id)) _) _ w
        (Ends-catching (λ _. Unit {0}) (call_blocking o (create_p2p c.user_id)) _ w
          (call_blocking-Quiet (create_p2p c.user_id) w) λ x v. dropped c.ctx_id x v)
        λ _ v _.
          Ends-catching (λ _. Unit {0}) (set_up o c) _ v (set_up-Quiet c v)
            λ x u.
              Ends-bind (λ _. Unit {0}) (λ _. Unit {0})
                (noexcept (call_blocking o (stop c.user_id)) >> destroy_ports o c.ctx_id) _ u
                (Ends-bind (λ _. Unit {0}) (λ _. Unit {0})
                  (noexcept (call_blocking o (stop c.user_id))) _ u
                  (Ends-noexcept (λ _. Unit {0}) (call_blocking o (stop c.user_id)) u
                    (call_blocking-Quiet (stop c.user_id) u))
                  λ _ t _. destroy_ports-Quiet c.ctx_id t)
                λ _ t _. (refl, refl)

  start_voip-Framed :
      (u : UpdateCall) (key : List ℕ) (servers : List CallServer) (ctx : Context) (w : World)
      → Framed ctx.id w (start_voip o settings u key servers ctx w)
  unfolding start_voip connect
  start_voip-Framed u key servers ctx w =
      Ends-bind (λ _. Unit {0}) (λ c. c.id ≡ ctx.id) (make_ports o ctx.id) _ w
        (make_ports-Quiet ctx.id w)
        λ _ v _.
          Ends-bind (λ _. Unit {0}) (λ c. c.id ≡ ctx.id) (start_owned o _) _ v
            (start_owned-Quiet _ v) λ c t _. (refl, (refl, refl))

  create_tg_voip-state :
      (s : CallState) (u : UpdateCall) (ctx : Context) (w : World)
      → u.state ≡ s
      → Framed ctx.id w (create_tg_voip_for o settings u ctx w)
  unfolding create_tg_voip_for
  create_tg_voip-state (ready key servers) u ctx w e = elim (Bool-cases (ltb (length key) 256)) [
    | inl short ↦ rw (e, create_tg_voip_for, short) tt
    | inr full ↦ rw (e, create_tg_voip_for, full) (start_voip-Framed u key servers ctx w)
  ]
  create_tg_voip-state pending u ctx w e = rw (e, create_tg_voip_for) tt
  create_tg_voip-state discarded u ctx w e = rw (e, create_tg_voip_for) tt
  create_tg_voip-state (CallState.error code message) u ctx w e = rw (e, create_tg_voip_for) tt
  create_tg_voip-state other_state u ctx w e = rw (e, create_tg_voip_for) tt

  pub create_tg_voip-Framed : FramedAction (create_tg_voip o settings)
  unfolding create_tg_voip
  create_tg_voip-Framed (tg_call u) ctx w = create_tg_voip-state u.state u ctx w refl
  create_tg_voip-Framed _ ctx w = tt

  pub clean_up-Framed : FramedAction (clean_up o settings)
  unfolding clean_up
  clean_up-Framed e ctx w =
      Framed-then ctx.id (stop_voip o settings ctx) _ w (stop_voip-Framed ctx w) λ c v.
        Framed-then c.id (discard_tg o settings c) (hang_up_sip o settings) v
          (discard_tg-Framed c v) hang_up_sip-Framed

  pub dial_sip-Framed : FramedAction (dial_sip o settings)
  unfolding dial_sip dial
  dial_sip-Framed (tg_call u) ctx w = ground arith
  dial_sip-Framed _ ctx w = tt

  pub answer_tg-Framed : FramedAction (answer_tg o settings)
  unfolding answer_tg
  answer_tg-Framed e ctx w = ground arith

  read_extension-id :
      (ext : Text) (ctx : Context) {ctx' : Context}
      → read_extension ext ctx ≡ some ctx'
      → ctx'.id ≡ ctx.id
  unfolding read_extension
  read_extension-id ext ctx h = ground arith

  accept_extension-Framed :
      (ctx : Context) (found : Option Context) (w : World)
      → ((c : Context) → found ≡ some c → c.id ≡ ctx.id)
      → Framed ctx.id w (accept_extension o settings ctx found w)
  unfolding accept_extension answer_call
  accept_extension-Framed ctx none w h = ground arith
  accept_extension-Framed ctx (some c) w h = ground (arith, h c refl)

  pub accept_incoming_sip-Framed : FramedAction (accept_incoming_sip o settings)
  unfolding accept_incoming_sip
  accept_incoming_sip-Framed (sip (incoming_call id extension)) ctx w =
      accept_extension-Framed ctx (read_extension extension ctx) w
        λ c h. read_extension-id extension ctx h
  accept_incoming_sip-Framed (sip _) ctx w = tt
  accept_incoming_sip-Framed _ ctx w = tt

  pub answer_sip-Framed : FramedAction (answer_sip o settings)
  unfolding answer_sip answer_call
  answer_sip-Framed e ctx w = ground arith

  pub bridge_audio-Framed : FramedAction (Actions.bridge_audio o settings)
  unfolding Actions.bridge_audio Sip.bridge_audio
  bridge_audio-Framed e ctx w = ground arith

  pub dial_dtmf-Framed : FramedAction (dial_dtmf o settings)
  unfolding dial_dtmf dial_digits
  dial_dtmf-Framed (tg_message m) ctx w = ground arith
  dial_dtmf-Framed _ ctx w = tt
