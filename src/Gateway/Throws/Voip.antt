-- ===== src/Gateway/Throws/Voip.antt =====
-- tg2sip/gateway.cpp, voip/controller.cpp, voip/audio_bridge.cpp: the exceptions of `CreateTgVoip`,
-- those of the ports and those of ntgcalls.
use tg2sip_webrtc.Prelude.{ℕ, ◌≡◌, refl, Text, ltb, length, Bool-cases, inl, inr, arith, List}
use tg2sip_webrtc.Outside.{
  Outside, CallState, pending, discarded, other_state, CallServer, ready, NtgFunction, stop,
  Direction, Request, PortCall, port, returned, register_media_port, unregister_media_port,
  set_capture_sources, set_playback_sources, skip_exchange, connect_p2p, create_p2p, UpdateCall,
}
use tg2sip_webrtc.World.{
  World, M, ask_pj, Exception, pj_error, runtime_error, range_error, ◌>>=◌, ◌>>◌, throw, catching,
  noexcept,
}
use tg2sip_webrtc.Settings.{Settings}
use tg2sip_webrtc.Voip.MediaPorts.{make_port, init_port, destroy_port, make_ports, destroy_ports}
use tg2sip_webrtc.Voip.Controller.{
  TgCallsController, call_blocking, supported_versions, start_owned, set_up, connect,
}
use tg2sip_webrtc.Gateway.Context.{Context, tg_call}
use tg2sip_webrtc.Gateway.Actions.{start_voip, create_tg_voip_for, create_tg_voip}
use tg2sip_webrtc.Gateway.Throws.{
  Throws, IsRuntimeError, NotRangeError, Throws-bind, Throws-catching, Throws-noexcept,
  Throws-weaken, ThrowingAction,
}

-- What the ports throw satisfies `P`, as do the errors of ntgcalls.
pub record Bounds (o : Outside) (P : Exception → Type 0) : Type 0 where
  pub up : (e : Exception) → IsRuntimeError e → P e
  pub makes : (owner : Text) (w : World) → Throws P (make_ports o owner w)
  pub destroys : (owner : Text) (w : World) → Throws P (destroy_ports o owner w)

module _ (o : Outside) where
  call_blocking-Throws : (f : NtgFunction) (w : World) → Throws IsRuntimeError (call_blocking o f w)
  call_blocking-Throws f w = ground arith

  -- A blocking ntgcalls call, and then the rest.
  then_ntg {ℓ} :
      {A : Type ℓ} (f : NtgFunction) (k : Unit {0} → M A) (w : World)
      → ((v : World) → Throws IsRuntimeError (k tt v))
      → Throws IsRuntimeError ((call_blocking o f >>= k) w)
  then_ntg f k w h =
      Throws-bind IsRuntimeError (call_blocking o f) k w (call_blocking-Throws f w) λ _ v. h v

  set_up-Throws : (c : TgCallsController) (w : World) → Throws IsRuntimeError (set_up o c w)
  unfolding set_up
  set_up-Throws c w = then_ntg (set_capture_sources c.user_id) _ w λ w.
      then_ntg (set_playback_sources c.user_id) _ w λ w.
        then_ntg (skip_exchange c.user_id c.encryption_key c.is_outgoing) _ w λ w.
          then_ntg (connect_p2p c.user_id c.rtc_servers supported_versions c.enable_p2p) _ w λ w. tt

  module _ (P : Exception → Type 0) (b : Bounds o P) where
    -- The ports are destroyed on the way of an exception.
    dropped :
        (owner : Text) (x : Exception) (w : World)
        → IsRuntimeError x
        → Throws P ((destroy_ports o owner >> throw {A = Unit {0}} x) w)
    dropped owner x w h =
        Throws-bind P (destroy_ports o owner) _ w (b.destroys owner w) λ _ v. b.up x h

    start_owned-Throws : (c : TgCallsController) (w : World) → Throws P (start_owned o c w)
    unfolding start_owned
    start_owned-Throws c w =
        Throws-bind P (catching (call_blocking o (create_p2p c.user_id)) _) _ w
          (Throws-catching P IsRuntimeError (call_blocking o (create_p2p c.user_id)) _ w b.up
            (call_blocking-Throws (create_p2p c.user_id) w) (dropped c.ctx_id))
          λ _ v. Throws-catching P IsRuntimeError (set_up o c) _ v b.up (set_up-Throws c v) λ x u h.
            Throws-bind P (noexcept (call_blocking o (stop c.user_id)) >> destroy_ports o c.ctx_id)
              _ u
              (Throws-bind P (noexcept (call_blocking o (stop c.user_id))) _ u
                (Throws-weaken IsRuntimeError P _ b.up (
                  Throws-noexcept IsRuntimeError (call_blocking o (stop c.user_id)) u
                    (call_blocking-Throws (stop c.user_id) u)))
                λ _ t. b.destroys c.ctx_id t)
              λ _ t. b.up x h

  module _ (settings : Settings) (P : Exception → Type 0) (b : Bounds o P) where
    start_voip-Throws :
        (u : UpdateCall) (key : List ℕ) (servers : List CallServer) (ctx : Context) (w : World)
        → Throws P (start_voip o settings u key servers ctx w)
    unfolding start_voip connect
    start_voip-Throws u key servers ctx w =
        Throws-bind P (make_ports o ctx.id) _ w (b.makes ctx.id w)
          λ _ v. Throws-bind P (start_owned o _) _ v (start_owned-Throws P b _ v) λ c t. tt

    create_tg_voip-state :
        (s : CallState) (u : UpdateCall) (ctx : Context) (w : World)
        → u.state ≡ s
        → Throws P (create_tg_voip_for o settings u ctx w)
    unfolding create_tg_voip_for
    create_tg_voip-state (ready key servers) u ctx w e = elim (Bool-cases (ltb (length key) 256)) [
      | inl short ↦ rw (e, create_tg_voip_for, short) tt
      | inr full ↦ rw (e, create_tg_voip_for, full) (start_voip-Throws u key servers ctx w)
    ]
    create_tg_voip-state pending u ctx w e = rw (e, create_tg_voip_for) tt
    create_tg_voip-state discarded u ctx w e = rw (e, create_tg_voip_for) tt
    create_tg_voip-state (CallState.error code message) u ctx w e = rw (e, create_tg_voip_for) tt
    create_tg_voip-state other_state u ctx w e = rw (e, create_tg_voip_for) tt

    pub create_tg_voip-Throws : ThrowingAction P (create_tg_voip o settings)
    unfolding create_tg_voip
    create_tg_voip-Throws (tg_call u) ctx w = create_tg_voip-state u.state u ctx w refl
    create_tg_voip-Throws _ ctx w = tt

  -- The bounds follow from the one of the requests for ports.
  module _ (P : Exception → Type 0) (up : (e : Exception) → IsRuntimeError e → P e)
      (asks : (owner : Text) (d : Direction) (c : PortCall) (w : World)
        → Throws P (ask_pj o (port owner d c) w)) where
    init_port-Throws : (owner : Text) (d : Direction) (w : World) → Throws P (init_port o owner d w)
    unfolding init_port
    init_port-Throws owner d w = ground arith

    make_port-Throws : (owner : Text) (d : Direction) (w : World) → Throws P (make_port o owner d w)
    unfolding make_port
    make_port-Throws owner d w =
        Throws-bind P (init_port o owner d) _ _ (init_port-Throws owner d _) λ _ v.
          Throws-bind P (ask_pj o (port owner d register_media_port)) _ v
            (asks owner d register_media_port v) λ _ t. tt

    destroy_port-Throws :
        (owner : Text) (d : Direction) (w : World) → Throws P (destroy_port o owner d w)
    unfolding destroy_port
    destroy_port-Throws owner d w =
        Throws-noexcept P (ask_pj o (port owner d unregister_media_port) >>= _) w (
          Throws-bind P (ask_pj o (port owner d unregister_media_port)) _ w
            (asks owner d unregister_media_port w) λ _ v. tt)

    ports-Bounds : Bounds o P
    unfolding make_ports destroy_ports
    ports-Bounds = record {
      up = up;
      makes = λ owner w.
          Throws-bind P (make_port o owner Direction.input) _ w
            (make_port-Throws owner Direction.input w)
            λ _ v.
              Throws-catching P P (make_port o owner Direction.output) _ v (λ e h. h)
                (make_port-Throws owner Direction.output v)
                λ e u h.
                  Throws-bind P (destroy_port o owner Direction.input) _ u
                    (destroy_port-Throws owner Direction.input u) λ _ t. h;
      destroys = λ owner w.
          Throws-bind P (destroy_port o owner Direction.output) _ w
            (destroy_port-Throws owner Direction.output w)
            λ _ v. destroy_port-Throws owner Direction.input v;
    }

  runtime_is_no_range : (e : Exception) → IsRuntimeError e → NotRangeError e
  runtime_is_no_range (pj_error reason) h = tt
  runtime_is_no_range (runtime_error message) h = tt
  runtime_is_no_range range_error h = h

  -- Whatever PJSIP answers.
  pub any_ports : Bounds o NotRangeError
  any_ports = ports-Bounds NotRangeError runtime_is_no_range λ owner d c w. ground arith

  -- Where PJSIP takes and gives back every port.
  pub held_ports :
      ((t : List Request) (owner : Text) (d : Direction) (call : PortCall)
        → o.pj_answer t (port owner d call) ≡ returned)
      → Bounds o IsRuntimeError
  held_ports h =
      ports-Bounds IsRuntimeError (λ e r. r) λ owner d c w. ground (arith, h w.trace owner d c)
