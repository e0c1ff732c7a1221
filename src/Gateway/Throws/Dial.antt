-- ===== src/Gateway/Throws/Dial.antt =====
-- tg2sip/gateway.cpp: the exceptions of `DialTg`: those of `std::stoi` on the delay that TDLib asks
-- for.
use tg2sip_webrtc.Prelude.{
  Text, ℤ, inl, inr, Bool-cases, pos, ◌==◌, int_eq, arith, ltb, List, [], ◌∷◌,
}
use tg2sip_webrtc.Outside.{Outside}
use tg2sip_webrtc.World.{World}
use tg2sip_webrtc.Settings.{Settings}
use tg2sip_webrtc.Gateway.Context.{Context}
use tg2sip_webrtc.Gateway.DialTg.{
  parse_error, dial_by_id, dial_imported, dial_by_phone, dial_by_username, refuse, dial_extension,
  dial_tg, give_up,
}
use tg2sip_webrtc.Gateway.Throws.{Throws, IsRangeError, Throws-bind, ThrowingAction}

module _ (o : Outside) (settings : Settings) where
  parse_error-Throws :
      (message : Text) (w : World) → Throws IsRangeError (parse_error o settings message w)
  unfolding parse_error
  parse_error-Throws message w = ground arith

  give_up-Throws :
      (ctx : Context) (code : ℤ) (message : Text) (w : World)
      → Throws IsRangeError (give_up o settings ctx code message w)
  give_up-Throws ctx code message w =
      Throws-bind IsRangeError (parse_error o settings message) _ _ (parse_error-Throws message _)
        λ _ v. tt

  dial_by_id-Throws :
      (id : ℤ) (ctx : Context) (w : World) → Throws IsRangeError (dial_by_id o settings id ctx w)
  unfolding dial_by_id
  dial_by_id-Throws id ctx w = ground arith

  dial_imported-Throws :
      (ctx : Context) (ids : List ℤ) (w : World)
      → Throws IsRangeError (dial_imported o settings ctx ids w)
  unfolding dial_imported
  dial_imported-Throws ctx [] w = tt
  dial_imported-Throws ctx (user ∷ ids) w = elim (Bool-cases (user == pos 0)) [
    | inl nobody ↦ rw nobody tt
    | inr found ↦ rw found (dial_by_id-Throws user ctx _)
  ]

  dial_by_phone-Throws :
      (ctx : Context) (w : World) → Throws IsRangeError (dial_by_phone o settings ctx w)
  unfolding dial_by_phone
  dial_by_phone-Throws ctx w = ground arith

  dial_by_username-Throws :
      (ctx : Context) (w : World) → Throws IsRangeError (dial_by_username o settings ctx w)
  unfolding dial_by_username
  dial_by_username-Throws ctx w = ground arith

  dial_extension-Throws :
      (ctx : Context) (w : World) → Throws IsRangeError (dial_extension o settings ctx w)
  unfolding dial_extension
  dial_extension-Throws ctx w = ground (
    arith,
    dial_by_username-Throws ctx w,
    dial_by_phone-Throws ctx w,
    dial_by_id-Throws ctx.user_id ctx w,
  )

  pub dial_tg-Throws : ThrowingAction IsRangeError (dial_tg o settings)
  unfolding dial_tg refuse
  dial_tg-Throws e ctx w = elim (Bool-cases (ltb (o.clock_answer w.trace) w.block_until)) [
    | inl blocked ↦ rw blocked tt
    | inr clear ↦ rw clear (dial_extension-Throws ctx _)
  ]
