-- ===== src/Gateway/Frame/Dial.antt =====
-- tg2sip/gateway.cpp: `DialTg`: the id of its context, and the other threads' queues.
use tg2sip_webrtc.Prelude.{
  ltb, pos, ◌==◌, int_eq, text_eq, lookup, Option-cases, ◌≡◌, refl, arith, ℤ, Text, List, [], ◌∷◌,
  none, some, Bool, true, false, Bool-cases, inl, inr,
}
use tg2sip_webrtc.Outside.{
  Outside, TdObject, create_call, import_contacts, search_public_chat, call_id, imported_contacts,
}
use tg2sip_webrtc.World.{World}
use tg2sip_webrtc.Settings.{Settings}
use tg2sip_webrtc.Gateway.Context.{Context}
use tg2sip_webrtc.Gateway.Actions.{call_protocol}
use tg2sip_webrtc.Gateway.DialTg.{
  parse_error, dial_by_id, dial_imported, dial_by_phone, dial_chat, dial_by_username, refuse,
  dial_extension, dial_tg, give_up,
}
use tg2sip_webrtc.Gateway.Frame.Rules.{Ends-bind, Quiet, Framed, FramedAction}

module _ (o : Outside) (settings : Settings) where
  parse_error-Quiet : (message : Text) (w : World) → Quiet w (parse_error o settings message w)
  unfolding parse_error
  parse_error-Quiet message w = ground arith

  give_up-Framed :
      (ctx : Context) (code : ℤ) (message : Text) (w : World)
      → Framed ctx.id w (give_up o settings ctx code message w)
  give_up-Framed ctx code message w =
      Ends-bind (λ _. Unit {0}) (λ c. c.id ≡ ctx.id) (parse_error o settings message) _ _
        (parse_error-Quiet message _) λ _ v _. (refl, (refl, refl))

  dial_by_id-answer :
      (r : TdObject) (id : ℤ) (ctx : Context) (w : World)
      → o.td_answer w.trace (create_call id (call_protocol o settings)) ≡ r
      → Framed ctx.id w (dial_by_id o settings id ctx w)
  unfolding dial_by_id
  dial_by_id-answer (TdObject.error code message) id ctx w e =
      rw (e, dial_by_id) (give_up-Framed (record ctx { user_id = id }) code message _)
  dial_by_id-answer (TdObject.user u) id ctx w e = rw (e, dial_by_id) (tt)
  dial_by_id-answer (call_id i) id ctx w e = rw (e, dial_by_id) (refl, (refl, refl))
  dial_by_id-answer (imported_contacts ids) id ctx w e = rw (e, dial_by_id) (tt)
  dial_by_id-answer (TdObject.chat is_private i) id ctx w e = rw (e, dial_by_id) (tt)
  dial_by_id-answer (TdObject.users ids) id ctx w e = rw (e, dial_by_id) (tt)
  dial_by_id-answer TdObject.ok id ctx w e = rw (e, dial_by_id) (tt)

  dial_by_id-Framed :
      (id : ℤ) (ctx : Context) (w : World) → Framed ctx.id w (dial_by_id o settings id ctx w)
  dial_by_id-Framed id ctx w = dial_by_id-answer _ id ctx w refl

  dial_imported-Framed :
      (ctx : Context) (ids : List ℤ) (w : World)
      → Framed ctx.id w (dial_imported o settings ctx ids w)
  unfolding dial_imported
  dial_imported-Framed ctx [] w = tt
  dial_imported-Framed ctx (user ∷ ids) w = elim (Bool-cases (user == pos 0)) [
    | inl nobody ↦ rw nobody (refl, (refl, refl))
    | inr found ↦ rw found (dial_by_id-Framed user ctx _)
  ]

  dial_chat-Framed :
      (ctx : Context) (is_private : Bool) (id : ℤ) (w : World)
      → Framed ctx.id w (dial_chat o settings ctx is_private id w)
  unfolding dial_chat
  dial_chat-Framed ctx true id w = dial_by_id-Framed id ctx _
  dial_chat-Framed ctx false id w = (refl, (refl, refl))

  dial_by_phone-hit :
      (id : ℤ) (ctx : Context) (w : World)
      → lookup ctx.ext_phone w.phone_cache ≡ some id
      → Framed ctx.id w (dial_by_phone o settings ctx w)
  unfolding dial_by_phone
  dial_by_phone-hit id ctx w hit = rw (hit, dial_by_phone) (dial_by_id-Framed id ctx w)

  dial_by_phone-answer :
      (r : TdObject) (ctx : Context) (w : World)
      → lookup ctx.ext_phone w.phone_cache ≡ none
      → o.td_answer w.trace (import_contacts ctx.ext_phone ctx.ext_phone) ≡ r
      → Framed ctx.id w (dial_by_phone o settings ctx w)
  unfolding dial_by_phone
  dial_by_phone-answer (TdObject.error code message) ctx w miss e =
      rw (miss, dial_by_phone, e) (give_up-Framed ctx code message _)
  dial_by_phone-answer (TdObject.user u) ctx w miss e = rw (miss, dial_by_phone, e) (tt)
  dial_by_phone-answer (call_id i) ctx w miss e = rw (miss, dial_by_phone, e) (tt)
  dial_by_phone-answer (imported_contacts ids) ctx w miss e =
      rw (miss, dial_by_phone, e) (dial_imported-Framed ctx ids _)
  dial_by_phone-answer (TdObject.chat is_private i) ctx w miss e = rw (miss, dial_by_phone, e) (tt)
  dial_by_phone-answer (TdObject.users ids) ctx w miss e = rw (miss, dial_by_phone, e) (tt)
  dial_by_phone-answer TdObject.ok ctx w miss e = rw (miss, dial_by_phone, e) (tt)

  dial_by_phone-Framed :
      (ctx : Context) (w : World) → Framed ctx.id w (dial_by_phone o settings ctx w)
  dial_by_phone-Framed ctx w = elim (Option-cases (lookup ctx.ext_phone w.phone_cache)) [
    | inl miss ↦ dial_by_phone-answer _ ctx w miss refl
    | inr (id, hit) ↦ dial_by_phone-hit id ctx w hit
  ]

  dial_by_username-hit :
      (id : ℤ) (ctx : Context) (w : World)
      → lookup ctx.ext_username w.username_cache ≡ some id
      → Framed ctx.id w (dial_by_username o settings ctx w)
  unfolding dial_by_username
  dial_by_username-hit id ctx w hit = rw (hit, dial_by_username) (dial_by_id-Framed id ctx w)

  dial_by_username-answer :
      (r : TdObject) (ctx : Context) (w : World)
      → lookup ctx.ext_username w.username_cache ≡ none
      → o.td_answer w.trace (search_public_chat ctx.ext_username) ≡ r
      → Framed ctx.id w (dial_by_username o settings ctx w)
  unfolding dial_by_username
  dial_by_username-answer (TdObject.error code message) ctx w miss e =
      rw (miss, dial_by_username, e) (give_up-Framed ctx code message _)
  dial_by_username-answer (TdObject.user u) ctx w miss e = rw (miss, dial_by_username, e) (tt)
  dial_by_username-answer (call_id i) ctx w miss e = rw (miss, dial_by_username, e) (tt)
  dial_by_username-answer (imported_contacts ids) ctx w miss e = rw (miss, dial_by_username, e) (tt)
  dial_by_username-answer (TdObject.chat is_private i) ctx w miss e =
      rw (miss, dial_by_username, e) (dial_chat-Framed ctx is_private i _)
  dial_by_username-answer (TdObject.users ids) ctx w miss e = rw (miss, dial_by_username, e) (tt)
  dial_by_username-answer TdObject.ok ctx w miss e = rw (miss, dial_by_username, e) (tt)

  dial_by_username-Framed :
      (ctx : Context) (w : World) → Framed ctx.id w (dial_by_username o settings ctx w)
  dial_by_username-Framed ctx w = elim (Option-cases (lookup ctx.ext_username w.username_cache)) [
    | inl miss ↦ dial_by_username-answer _ ctx w miss refl
    | inr (id, hit) ↦ dial_by_username-hit id ctx w hit
  ]

  dial_extension-Framed :
      (ctx : Context) (w : World) → Framed ctx.id w (dial_extension o settings ctx w)
  unfolding dial_extension
  dial_extension-Framed ctx w = ground (
    arith,
    dial_by_username-Framed ctx w,
    dial_by_phone-Framed ctx w,
    dial_by_id-Framed ctx.user_id ctx w,
  )

  pub dial_tg-Framed : FramedAction (dial_tg o settings)
  unfolding dial_tg refuse
  dial_tg-Framed e ctx w = elim (Bool-cases (ltb (o.clock_answer w.trace) w.block_until)) [
    | inl blocked ↦ rw blocked (refl, (refl, refl))
    | inr clear ↦ rw clear (dial_extension-Framed ctx _)
  ]
