-- ===== src/Gateway/Transitions.antt =====
-- tg2sip/gateway.cpp: the transition tables read as one function, the order of a bridge's states,
-- and what a bridge holds when it terminates.
use tg2sip_webrtc.Prelude.{
  ◌≡◌, ◌≢◌, refl, ◌∙◌, sym, ap, ◌++◌, Option, none, some, Bool, true, false, ◌&&◌, ◌||◌,
  if◌then◌else◌, arith, inl, inr,
}
use tg2sip_webrtc.Outside.{Outside, early, disconnected}
use tg2sip_webrtc.World.{World, done, incoming_call, call_state_update, call_media_state_update}
use tg2sip_webrtc.Settings.{Settings}
use tg2sip_webrtc.Gateway.Context.{Context, Event, tg_call, tg_message, sip, internal_error}
use tg2sip_webrtc.Gateway.Guards.{
  is_incoming, is_in_state, callback_uri_is_set, is_sip_in_state, pending_id, ready_id,
  discarded_id, error_id,
}
use tg2sip_webrtc.Gateway.Actions.{clean_up}
use tg2sip_webrtc.Gateway.CleanUp.{IsClean, clean_up_lem}
use tg2sip_webrtc.Gateway.Sml.{Sml, first_fit}
use tg2sip_webrtc.Gateway.Firing.{process_event-cases}
use tg2sip_webrtc.Gateway.Machine.{
  FromTg, FromSip, State, init, from_tg, from_sip, terminated, machine, entry, GatewayRow,
}

-- The events that end a call that has begun: Telegram discards it or fails, the SIP side
-- disconnects, or an action reported an error.
abbrev pub ends : Event → Bool
ends (tg_call u) = is_in_state discarded_id u || is_in_state error_id u
ends (tg_message m) = false
ends (sip (incoming_call id extension)) = false
ends (sip (call_state_update id state)) = is_sip_in_state disconnected state
ends (sip (call_media_state_update id has_media)) = false
ends (internal_error prm) = true

-- The steps of a call that Telegram began, and of one that began at the SIP side.
abbrev pub advance_tg : FromTg → Event → FromTg
advance_tg FromTg.sip_wait_media (sip (call_media_state_update id has_media)) =
    if has_media then FromTg.wait_tg else FromTg.sip_wait_media
advance_tg FromTg.wait_tg (tg_call u) =
    if is_in_state ready_id u then FromTg.wait_dtmf else FromTg.wait_tg
advance_tg q e = q

abbrev pub advance_sip : FromSip → Event → FromSip
advance_sip FromSip.sip_wait_confirm (sip (call_state_update id state)) =
    if is_sip_in_state early state then FromSip.wait_tg else FromSip.sip_wait_confirm
advance_sip FromSip.wait_tg (tg_call u) =
    if is_in_state ready_id u then FromSip.sip_wait_media else FromSip.wait_tg
advance_sip FromSip.sip_wait_media (sip (call_media_state_update id has_media)) =
    if has_media then FromSip.wait_dtmf else FromSip.sip_wait_media
advance_sip q e = q

-- The first event of a bridge.
abbrev pub begin : Settings → Event → State
begin settings (tg_call u) =
    if is_incoming u && is_in_state pending_id u && callback_uri_is_set settings
    then from_tg FromTg.sip_wait_media
    else terminated
begin settings (tg_message m) = init
begin settings (sip (incoming_call id extension)) = from_sip FromSip.sip_wait_confirm
begin settings (sip (call_state_update id state)) = terminated
begin settings (sip (call_media_state_update id has_media)) = terminated
begin settings (internal_error prm) = init

-- The state after an event, by what the event means rather than by the rows of the tables.
unfoldable pub next : Settings → State → Event → State
next settings init e = begin settings e
next settings (from_tg q) e = if ends e then terminated else from_tg (advance_tg q e)
next settings (from_sip q) e = if ends e then terminated else from_sip (advance_sip q e)
next settings terminated e = terminated

-- The target of the row that fires, or the state itself.
abbrev pub target_of : State → Option GatewayRow → State
target_of s none = s
target_of s (some r) = r.target

module _ (o : Outside) (settings : Settings) where
  abbrev pub fit : State → Event → Option GatewayRow
  fit s e = first_fit ((machine o settings).submachine_rows ++ (machine o settings).rows) s e

  target-next-init : (e : Event) → target_of init (fit init e) ≡ next settings init e
  unfolding machine next
  target-next-init (tg_call u) = ground arith
  target-next-init (tg_message m) = refl
  target-next-init (sip (incoming_call id extension)) = refl
  target-next-init (sip _) = refl
  target-next-init (internal_error prm) = refl

  target-next-from_tg :
      (q : FromTg) (e : Event)
      → target_of (from_tg q) (fit (from_tg q) e) ≡ next settings (from_tg q) e
  unfolding machine next is_in_state is_sip_in_state
  target-next-from_tg FromTg.sip_wait_media (tg_call u) = ground arith
  target-next-from_tg FromTg.sip_wait_media (tg_message m) = ground arith
  target-next-from_tg FromTg.sip_wait_media (sip (incoming_call id extension)) = ground arith
  target-next-from_tg FromTg.sip_wait_media (sip (call_state_update id state)) = ground arith
  target-next-from_tg FromTg.sip_wait_media (sip (call_media_state_update id has_media)) =
      ground arith
  target-next-from_tg FromTg.sip_wait_media (internal_error prm) = ground arith
  target-next-from_tg _ (tg_call u) = ground arith
  target-next-from_tg _ (tg_message m) = ground arith
  target-next-from_tg _ (sip (incoming_call id extension)) = ground arith
  target-next-from_tg _ (sip (call_state_update id state)) = ground arith
  target-next-from_tg _ (sip (call_media_state_update id has_media)) = ground arith
  target-next-from_tg _ (internal_error prm) = ground arith

  target-next-from_sip :
      (q : FromSip) (e : Event)
      → target_of (from_sip q) (fit (from_sip q) e) ≡ next settings (from_sip q) e
  unfolding machine next is_in_state is_sip_in_state
  target-next-from_sip FromSip.sip_wait_confirm (tg_call u) = ground arith
  target-next-from_sip FromSip.sip_wait_confirm (tg_message m) = ground arith
  target-next-from_sip FromSip.sip_wait_confirm (sip (incoming_call id extension)) = ground arith
  target-next-from_sip FromSip.sip_wait_confirm (sip (call_state_update id state)) = ground arith
  target-next-from_sip FromSip.sip_wait_confirm (sip (call_media_state_update id has_media)) =
      ground arith
  target-next-from_sip FromSip.sip_wait_confirm (internal_error prm) = ground arith
  target-next-from_sip _ (tg_call u) = ground arith
  target-next-from_sip _ (tg_message m) = ground arith
  target-next-from_sip _ (sip (incoming_call id extension)) = ground arith
  target-next-from_sip _ (sip (call_state_update id state)) = ground arith
  target-next-from_sip _ (sip (call_media_state_update id has_media)) = ground arith
  target-next-from_sip _ (internal_error prm) = ground arith

  target-next-terminated : (e : Event) → fit terminated e ≡ none
  unfolding machine
  target-next-terminated (tg_call u) = refl
  target-next-terminated (tg_message m) = refl
  target-next-terminated (sip (incoming_call id extension)) = refl
  target-next-terminated (sip _) = refl
  target-next-terminated (internal_error prm) = refl

  pub target-next : (s : State) (e : Event) → target_of s (fit s e) ≡ next settings s e
  unfolding next
  target-next init e = target-next-init e
  target-next (from_tg q) e = target-next-from_tg q e
  target-next (from_sip q) e = target-next-from_sip q e
  target-next terminated e = rw (target-next-terminated e)

  on_entry-terminated :
      (s : State) (e : Event) (ctx : Context)
      → s ≡ terminated
      → (machine o settings).on_entry s e ctx ≡ clean_up o settings e ctx
  unfolding machine
  on_entry-terminated s e ctx h = rw (h, entry)

module _ (sml : Sml) (o : Outside) (settings : Settings) where
  -- The state after an event that is processed without an exception is the one that `next`
  -- gives, in every state and for every event.
  pub state-process_event :
      (s : State) (e : Event) (ctx : Context) (w : World) {s' : State} {ctx' : Context} {w' : World}
      → sml.process_event (machine o settings) s e ctx w ≡ done (s', ctx') w'
      → s' ≡ next settings s e
  state-process_event s e ctx w {s'} {ctx'} {w'} h =
      elim (process_event-cases (machine o settings) sml s e ctx w h) [
        | inl (nothing, same, _, _) ↦
            same ∙ ap (target_of s) (sym nothing) ∙ target-next o settings s e
        | inr (r, found, moved, _, _, _, _) ↦
            moved ∙ ap (target_of s) (sym found) ∙ target-next o settings s e
      ]

  -- A bridge that was not terminated and that an event terminates, without an exception, holds no
  -- call any more: no Telegram call id, no SIP call id, and a controller that is stopped, if it
  -- has one.
  pub process_event-IsClean :
      (s : State) (e : Event) (ctx : Context) (w : World) {ctx' : Context} {w' : World}
      → s ≢ terminated
      → sml.process_event (machine o settings) s e ctx w ≡ done (terminated, ctx') w'
      → IsClean ctx'
  process_event-IsClean s e ctx w {ctx'} {w'} live h =
      elim (process_event-cases (machine o settings) sml s e ctx w h) [
        | inl (nothing, same, _, _) ↦ absurd (live (sym same))
        | inr (r, found, moved, c₁, w₁, acted, entered) ↦
            (clean_up_lem o settings e c₁ w₁ {w' = w'} (
              sym (ap (λ f. f w₁) (on_entry-terminated o settings r.target e c₁ (sym moved)))
              ∙ entered)).1
      ]
