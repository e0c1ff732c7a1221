-- ===== src/Gateway/Throws/Steps.antt =====
-- tg2sip/gateway.cpp: the exceptions of each action.
use tg2sip_webrtc.Prelude.{Option, none, some, arith}
use tg2sip_webrtc.Outside.{Outside}
use tg2sip_webrtc.World.{World, incoming_call}
use tg2sip_webrtc.Settings.{Settings}
use tg2sip_webrtc.Sip.{
  dial, answer_call, hang_up, bridge_audio, dial_digits, audio_media, connect_audio,
}
use tg2sip_webrtc.Voip.Controller.{stop_controller}
use tg2sip_webrtc.Gateway.Context.{Context, tg_call, tg_message, sip}
use tg2sip_webrtc.Gateway.Values.{read_extension}
use tg2sip_webrtc.Gateway.Actions
use tg2sip_webrtc.Gateway.Actions.{
  store_sip_id, store_tg_id, store_tg_user_id, clean_tg_id, clean_sip_id, set_hangup_prm, stop_voip,
  discard_tg, hang_up_sip, clean_up, dial_sip_as, dial_sip, answer_tg, accept_extension,
  accept_incoming_sip, answer_sip, create_tg_voip_for, create_tg_voip, dial_dtmf,
}
use tg2sip_webrtc.Sip
use tg2sip_webrtc.Gateway.Throws.{Throws, Never, IsRuntimeError, Throws-bind, ThrowingAction}

pub store_sip_id-Throws : ThrowingAction Never store_sip_id
unfolding store_sip_id
store_sip_id-Throws e ctx w = ground arith

pub store_tg_id-Throws : ThrowingAction Never store_tg_id
unfolding store_tg_id
store_tg_id-Throws e ctx w = ground arith

pub store_tg_user_id-Throws : ThrowingAction Never store_tg_user_id
unfolding store_tg_user_id
store_tg_user_id-Throws e ctx w = ground arith

pub clean_tg_id-Throws : ThrowingAction Never clean_tg_id
unfolding clean_tg_id
clean_tg_id-Throws e ctx w = ground arith

pub clean_sip_id-Throws : ThrowingAction Never clean_sip_id
unfolding clean_sip_id
clean_sip_id-Throws e ctx w = ground arith

pub set_hangup_prm-Throws : ThrowingAction Never set_hangup_prm
unfolding set_hangup_prm
set_hangup_prm-Throws e ctx w = ground arith

module _ (o : Outside) (settings : Settings) where
  pub stop_voip-Throws :
      (ctx : Context) (w : World) → Throws IsRuntimeError (stop_voip o settings ctx w)
  unfolding stop_voip stop_controller
  stop_voip-Throws ctx w = ground arith

  discard_tg-Throws :
      (ctx : Context) (w : World) → Throws IsRuntimeError (discard_tg o settings ctx w)
  unfolding discard_tg
  discard_tg-Throws ctx w = ground arith

  hang_up_sip-Throws :
      (ctx : Context) (w : World) → Throws IsRuntimeError (hang_up_sip o settings ctx w)
  unfolding hang_up_sip hang_up
  hang_up_sip-Throws ctx w = ground arith

  pub answer_tg-Throws : ThrowingAction Never (answer_tg o settings)
  unfolding answer_tg
  answer_tg-Throws e ctx w = ground arith

  pub dial_sip-Throws : ThrowingAction IsRuntimeError (dial_sip o settings)
  unfolding dial_sip dial
  dial_sip-Throws (tg_call u) ctx w = ground arith
  dial_sip-Throws _ ctx w = tt

  accept_extension-Throws :
      (ctx : Context) (found : Option Context) (w : World)
      → Throws Never (accept_extension o settings ctx found w)
  unfolding accept_extension answer_call
  accept_extension-Throws ctx none w = ground arith
  accept_extension-Throws ctx (some c) w = ground arith

  pub answer_sip-Throws : ThrowingAction Never (answer_sip o settings)
  unfolding answer_sip answer_call
  answer_sip-Throws e ctx w = ground arith

  pub bridge_audio-Throws : ThrowingAction Never (Actions.bridge_audio o settings)
  unfolding Actions.bridge_audio Sip.bridge_audio
  bridge_audio-Throws e ctx w = ground arith

  pub dial_dtmf-Throws : ThrowingAction IsRuntimeError (dial_dtmf o settings)
  unfolding dial_dtmf dial_digits
  dial_dtmf-Throws (tg_message m) ctx w = ground arith
  dial_dtmf-Throws _ ctx w = tt

  pub clean_up-Throws : ThrowingAction IsRuntimeError (clean_up o settings)
  unfolding clean_up
  clean_up-Throws e ctx w =
      Throws-bind IsRuntimeError (stop_voip o settings ctx) _ w (stop_voip-Throws ctx w) λ c v.
        Throws-bind IsRuntimeError (discard_tg o settings c) (hang_up_sip o settings) v
          (discard_tg-Throws c v) hang_up_sip-Throws

  pub accept_incoming_sip-Throws : ThrowingAction Never (accept_incoming_sip o settings)
  unfolding accept_incoming_sip
  accept_incoming_sip-Throws (sip (incoming_call id extension)) ctx w =
      accept_extension-Throws ctx (read_extension extension ctx) w
  accept_incoming_sip-Throws (sip _) ctx w = tt
  accept_incoming_sip-Throws _ ctx w = tt
