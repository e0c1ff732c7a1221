-- ===== src/Gateway/CleanUp.antt =====
-- tg2sip/gateway.cpp: the action `CleanUp`: the requests that it makes, and what it leaves.
use tg2sip_webrtc.Prelude.{
  ◌≡◌, List, [], ◌∷◌, ◌++◌, Option, none, some, ℤ, pos, ◌==◌, ==_iff, int_eq, if◌then◌else◌, lookup,
  arith, inl, inr, Option-cases,
}
use tg2sip_webrtc.Outside.{Outside, Request, td, pj, ntg, discard_call, hangup, stop}
use tg2sip_webrtc.World.{World, SipCall, done, pure, ◌>>=◌, >>=-eq-done}
use tg2sip_webrtc.Settings.{Settings}
use tg2sip_webrtc.Sip.{invalid_id, hang_up}
use tg2sip_webrtc.Voip.Controller.{TgCallsController, stop_controller}
use tg2sip_webrtc.Voip.Controller.Lifecycle.{
  IsStopped, stop_controller-IsStopped, trace-stop_controller,
}
use tg2sip_webrtc.Gateway.Context.{Context, Event}
use tg2sip_webrtc.Gateway.Actions.{stop_voip, discard_tg, hang_up_sip, clean_up}

abbrev AllStopped : Option TgCallsController → Type 0
AllStopped none = Unit {0}
AllStopped (some c) = IsStopped c

-- A context that holds no call any more.
pub record IsClean (ctx : Context) : Type 0 where
  pub no_tg_call : ctx.tg_call_id ≡ pos 0
  pub no_sip_call : ctx.sip_call_id ≡ invalid_id
  pub no_voip : AllStopped ctx.controller

-- What has to be asked of ntgcalls, TDLib and PJSIP to end a call.
abbrev stop_requests : Option TgCallsController → List Request
stop_requests none = []
stop_requests (some c) = if c.created then ntg (stop c.user_id) ∷ [] else []

abbrev discard_requests : ℤ → List Request
discard_requests id = if id == pos 0 then [] else td (discard_call id id) ∷ []

abbrev hangup_requests : Context → Option SipCall → List Request
hangup_requests ctx none = []
hangup_requests ctx (some call) =
    if ctx.sip_call_id == invalid_id then [] else pj (hangup call.object ctx.hangup_prm) ∷ []

module _ (o : Outside) (settings : Settings) where
  -- `Stop` touches no calls and no ids.
  stop_voip_lem :
      (ctx : Context) (w : World) {ctx' : Context} {w' : World}
      → stop_voip o settings ctx w ≡ done ctx' w'
      → (w'.trace ≡ stop_requests ctx.controller ++ w.trace)
        × (w'.calls ≡ w.calls)
        × (ctx' ≡ record ctx { controller = ctx'.controller })
        × AllStopped ctx'.controller
  unfolding stop_voip
  stop_voip_lem ctx w {ctx'} {w'} e = elim (Option-cases ctx.controller) [
    | inl absent ↦ ground arith
    | inr (c, there) ↦
        let (c', v, stopped, result) =
          >>=-eq-done (stop_controller o c) (λ c'. pure (record ctx { controller = some c' })) w
            (rw (there, stop_voip) at e) in
        ground
          (arith, trace-stop_controller o c w stopped, (stop_controller-IsStopped o c w stopped).0)
  ]

  discard_tg_lem :
      (ctx : Context) (w : World) {ctx' : Context} {w' : World}
      → discard_tg o settings ctx w ≡ done ctx' w'
      → (w'.trace ≡ discard_requests ctx.tg_call_id ++ w.trace)
        × (w'.calls ≡ w.calls)
        × (ctx' ≡ record ctx { tg_call_id = pos 0 })
  unfolding discard_tg
  discard_tg_lem ctx w e = ground (arith, ==_iff ctx.tg_call_id (pos 0))

  hang_up_sip_lem :
      (ctx : Context) (w : World) {ctx' : Context} {w' : World}
      → hang_up_sip o settings ctx w ≡ done ctx' w'
      → (w'.trace ≡ hangup_requests ctx (lookup ctx.sip_call_id w.calls) ++ w.trace)
        × (ctx' ≡ record ctx { sip_call_id = invalid_id })
  unfolding hang_up_sip hang_up
  hang_up_sip_lem ctx w e = ground (arith, ==_iff ctx.sip_call_id invalid_id)

  -- `CleanUp` that returns has ended, in this order, the ntgcalls call if one was created, the
  -- Telegram call if one is known and the SIP call if one is known and kept, has asked nothing
  -- else, and leaves a context that holds no call any more.
  pub clean_up_lem :
      (e : Event) (ctx : Context) (w : World) {ctx' : Context} {w' : World}
      → clean_up o settings e ctx w ≡ done ctx' w'
      → (w'.trace
          ≡ hangup_requests ctx (lookup ctx.sip_call_id w.calls)
            ++ discard_requests ctx.tg_call_id
            ++ stop_requests ctx.controller
            ++ w.trace)
        × IsClean ctx'
        × (ctx'.id ≡ ctx.id)
  unfolding clean_up
  clean_up_lem e ctx w {ctx'} {w'} h =
      let (c₁, w₁, h₁, rest) =
        >>=-eq-done (stop_voip o settings ctx)
          (λ stopped. discard_tg o settings stopped >>= hang_up_sip o settings) w h in
      let (c₂, w₂, h₂, h₃) =
        >>=-eq-done (discard_tg o settings c₁) (hang_up_sip o settings) w₁ rest in
      ground (arith, stop_voip_lem ctx w h₁, discard_tg_lem c₁ w₁ h₂, hang_up_sip_lem c₂ w₂ h₃)
