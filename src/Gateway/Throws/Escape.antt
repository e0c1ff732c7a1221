-- ===== src/Gateway/Throws/Escape.antt =====
-- tg2sip/gateway.cpp: the exceptions that end the process in a bridge's state machine, by the
-- transition taken.
use tg2sip_webrtc.Prelude.{◌≡◌, ◌∙◌, sym, ap, ◌++◌, some, true, Option-cases, inl, inr}
use mathlib.Core.Path.{subst}
use tg2sip_webrtc.Outside.{Outside}
use tg2sip_webrtc.World.{World, Exception}
use tg2sip_webrtc.Settings.{Settings}
use tg2sip_webrtc.Gateway.Context.{Context, Event, Action}
use tg2sip_webrtc.Gateway.Actions.{
  store_tg_id, store_tg_user_id, dial_sip, create_tg_voip, answer_sip, dial_dtmf, bridge_audio,
}
use tg2sip_webrtc.Gateway.DialTg.{dial_tg}
use tg2sip_webrtc.Gateway.Sml.{
  Sml, first_fit, perform, process_event_lem, by_first_fit-none, by_first_fit-some,
}
use tg2sip_webrtc.Gateway.Machine.{
  in_tg_wait_tg, in_tg_wait_dtmf, in_sip_wait_confirm, in_sip_wait_tg, in_sip_wait_dtmf, is_init,
  FromTg, FromSip, State, init, from_tg, from_sip, terminated, GatewayRow, machine, from_tg_table,
  from_sip_table, state_machine_table, entry, no_action, ◌then_do◌,
}
use tg2sip_webrtc.Gateway.Transitions.{next, target_of, target-next}
use tg2sip_webrtc.Gateway.Rows.{AllRows, no_rows, ◌▹◌, AllRows-++, first_fit-AllRows}
use tg2sip_webrtc.Gateway.Throws.{
  Throws, Contained, Contained-noexcept, NotRangeError, Never, IsRuntimeError, IsRangeError,
  Throws-bind, Throws-weaken, ThrowingAction, then_do-Throws,
}
use tg2sip_webrtc.Gateway.Throws.Steps.{
  store_sip_id-Throws, store_tg_id-Throws, store_tg_user_id-Throws, clean_tg_id-Throws,
  clean_sip_id-Throws, set_hangup_prm-Throws, answer_tg-Throws, dial_sip-Throws,
  accept_incoming_sip-Throws, answer_sip-Throws, bridge_audio-Throws, dial_dtmf-Throws,
  clean_up-Throws,
}
use tg2sip_webrtc.Gateway.Throws.Voip.{Bounds, create_tg_voip-Throws, any_ports}
use tg2sip_webrtc.Gateway.Throws.Dial.{dial_tg-Throws}

-- The exceptions of an event, by the state after it and the state before; `P` are those of a
-- controller that is made and started.
abbrev pub ThrownInto : (Exception → Type 0) → State → State → Exception → Type 0
-- ntgcalls' `stop`, in `CleanUp`
ThrownInto P terminated s = IsRuntimeError
-- `getUser`, in `DialSip`
ThrownInto P (from_tg FromTg.sip_wait_media) init = IsRuntimeError
-- `CreateTgVoip`
ThrownInto P (from_tg FromTg.wait_dtmf) (from_tg FromTg.wait_tg) = P
-- `sip::Client::DialDtmf`
ThrownInto P (from_tg FromTg.wait_dtmf) (from_tg FromTg.wait_dtmf) = IsRuntimeError
-- `std::stoi` of a delay, in `DialTg`
ThrownInto P (from_sip FromSip.wait_tg) (from_sip FromSip.sip_wait_confirm) = IsRangeError
-- `CreateTgVoip`
ThrownInto P (from_sip FromSip.sip_wait_media) (from_sip FromSip.wait_tg) = P
-- `sip::Client::DialDtmf`
ThrownInto P (from_sip FromSip.wait_dtmf) (from_sip FromSip.wait_dtmf) = IsRuntimeError
ThrownInto P t s = Never

abbrev ThrowingRow : (Exception → Type 0) → GatewayRow → Type 0
ThrowingRow P r =
    (s : State) → r.source s ≡ true → ThrowingAction (ThrownInto P r.target s) r.action

ThrowingAction-weaken :
    (X Y : Exception → Type 0) (a : Action)
    → ((e : Exception) → X e → Y e)
    → ThrowingAction X a
    → ThrowingAction Y a
ThrowingAction-weaken X Y a h t e ctx w = Throws-weaken X Y (a e ctx w) h (t e ctx w)

silent : (X : Exception → Type 0) (a : Action) → ThrowingAction Never a → ThrowingAction X a
silent X a t = ThrowingAction-weaken Never X a (λ e n. elim n [ ]) t

no_action-Throws : ThrowingAction Never no_action
no_action-Throws e ctx w = tt

module _ (sml : Sml) (o : Outside) (settings : Settings) (P : Exception → Type 0)
    (b : Bounds o P) where
  bridged-row :
      (s : State)
      → in_tg_wait_tg s ≡ true
      → ThrowingAction
          (ThrownInto P (from_tg FromTg.wait_dtmf) s)
          (create_tg_voip o settings then_do bridge_audio o settings)
  bridged-row (from_tg FromTg.wait_tg) h =
      then_do-Throws P _ _ (create_tg_voip-Throws o settings P b)
        (silent P _ (bridge_audio-Throws o settings))
  bridged-row (from_tg _) h = cc h
  bridged-row (from_sip q) h = cc h
  bridged-row init h = cc h
  bridged-row terminated h = cc h

  tg_dtmf-row :
      (s : State)
      → in_tg_wait_dtmf s ≡ true
      → ThrowingAction (ThrownInto P (from_tg FromTg.wait_dtmf) s) (dial_dtmf o settings)
  tg_dtmf-row (from_tg FromTg.wait_dtmf) h = dial_dtmf-Throws o settings
  tg_dtmf-row (from_tg _) h = cc h
  tg_dtmf-row (from_sip q) h = cc h
  tg_dtmf-row init h = cc h
  tg_dtmf-row terminated h = cc h

  from_tg_table-AllRows : AllRows (ThrowingRow P) (from_tg_table o settings)
  unfolding from_tg_table
  from_tg_table-AllRows = (λ s h. answer_tg-Throws o settings) ▹ bridged-row ▹ tg_dtmf-row ▹ no_rows

  -- The sources of the rows whose exception depends on the state.
  dial_tg-row :
      (s : State)
      → in_sip_wait_confirm s ≡ true
      → ThrowingAction (ThrownInto P (from_sip FromSip.wait_tg) s) (dial_tg o settings)
  dial_tg-row (from_sip FromSip.sip_wait_confirm) h = dial_tg-Throws o settings
  dial_tg-row (from_sip _) h = cc h
  dial_tg-row (from_tg q) h = cc h
  dial_tg-row init h = cc h
  dial_tg-row terminated h = cc h

  answered : Action
  answered = store_tg_user_id then_do create_tg_voip o settings then_do answer_sip o settings

  answered-Throws : ThrowingAction P answered
  unfolding answered
  answered-Throws = then_do-Throws P _ _ (silent P _ store_tg_user_id-Throws) (
      then_do-Throws P _ _ (create_tg_voip-Throws o settings P b)
        (silent P _ (answer_sip-Throws o settings)))

  answered-row :
      (s : State)
      → in_sip_wait_tg s ≡ true
      → ThrowingAction (ThrownInto P (from_sip FromSip.sip_wait_media) s) answered
  answered-row (from_sip FromSip.wait_tg) h = answered-Throws
  answered-row (from_sip _) h = cc h
  answered-row (from_tg q) h = cc h
  answered-row init h = cc h
  answered-row terminated h = cc h

  dial_dtmf-row :
      (s : State)
      → in_sip_wait_dtmf s ≡ true
      → ThrowingAction (ThrownInto P (from_sip FromSip.wait_dtmf) s) (dial_dtmf o settings)
  dial_dtmf-row (from_sip FromSip.wait_dtmf) h = dial_dtmf-Throws o settings
  dial_dtmf-row (from_sip _) h = cc h
  dial_dtmf-row (from_tg q) h = cc h
  dial_dtmf-row init h = cc h
  dial_dtmf-row terminated h = cc h

  called : Action
  called = store_tg_id then_do store_tg_user_id then_do dial_sip o settings

  called-row :
      (s : State)
      → is_init s ≡ true
      → ThrowingAction (ThrownInto P (from_tg FromTg.sip_wait_media) s) called
  unfolding called
  called-row init h =
      then_do-Throws IsRuntimeError _ _ (silent IsRuntimeError _ store_tg_id-Throws) (
        then_do-Throws IsRuntimeError _ _ (silent IsRuntimeError _ store_tg_user_id-Throws)
          (dial_sip-Throws o settings))
  called-row (from_tg q) h = cc h
  called-row (from_sip q) h = cc h
  called-row terminated h = cc h

  from_sip_table-AllRows : AllRows (ThrowingRow P) (from_sip_table o settings)
  unfolding from_sip_table answered
  from_sip_table-AllRows =
      dial_tg-row
      ▹ answered-row
      ▹ (λ s h. silent _ _ (bridge_audio-Throws o settings))
      ▹ dial_dtmf-row
      ▹ no_rows

  state_machine_table-AllRows : AllRows (ThrowingRow P) (state_machine_table o settings)
  unfolding state_machine_table called
  state_machine_table-AllRows =
      called-row
      ▹ (λ s h. silent IsRuntimeError _ store_tg_id-Throws)
      ▹ (λ s h. silent IsRuntimeError no_action no_action-Throws)
      ▹ (λ s h.
          then_do-Throws Never _ _ store_sip_id-Throws (accept_incoming_sip-Throws o settings))
      ▹ (λ s h. silent IsRuntimeError no_action no_action-Throws)
      ▹ (λ s h. silent IsRuntimeError no_action no_action-Throws)
      ▹ (λ s h. silent IsRuntimeError _ clean_tg_id-Throws)
      ▹ (λ s h. silent IsRuntimeError _ clean_sip_id-Throws)
      ▹ (λ s h. silent IsRuntimeError _ set_hangup_prm-Throws)
      ▹ (λ s h. silent IsRuntimeError _ clean_tg_id-Throws)
      ▹ (λ s h. silent IsRuntimeError _ set_hangup_prm-Throws)
      ▹ (λ s h. silent IsRuntimeError _ clean_sip_id-Throws)
      ▹ no_rows

  machine-AllRows :
      AllRows (ThrowingRow P) ((machine o settings).submachine_rows ++ (machine o settings).rows)
  unfolding machine
  machine-AllRows =
      AllRows-++ (AllRows-++ from_tg_table-AllRows from_sip_table-AllRows)
        state_machine_table-AllRows

  entry-Throws : (t s : State) → ThrowingAction (ThrownInto P t s) (entry o settings t)
  unfolding entry
  entry-Throws init s e ctx w = tt
  entry-Throws (from_tg q) s e ctx w = tt
  entry-Throws (from_sip q) s e ctx w = tt
  entry-Throws terminated s e ctx w = clean_up-Throws o settings e ctx w

  perform-Throws :
      (r : GatewayRow) (X : Exception → Type 0) (e : Event) (ctx : Context) (w : World)
      → ThrowingAction X r.action
      → ThrowingAction X (entry o settings r.target)
      → Throws X (perform (machine o settings) r e ctx w)
  unfolding machine
  perform-Throws r X e ctx w h k =
      Throws-bind X (r.action e ctx) _ w (h e ctx w)
        λ c v. Throws-bind X (entry o settings r.target e c) _ v (k e c v) λ d u. tt

  pub process_event-Contained :
      (s : State) (e : Event) (ctx : Context) (w : World)
      → Contained
          (ThrownInto P (next settings s e) s)
          (sml.process_event (machine o settings) s e ctx w)
  process_event-Contained s e ctx w =
      rw (process_event_lem sml (machine o settings) s e ctx)
        elim (Option-cases
          (first_fit ((machine o settings).submachine_rows ++ (machine o settings).rows) s e)) [
            | inl nothing ↦ rw (by_first_fit-none (machine o settings) s e ctx _ nothing) tt
            | inr (r, fit) ↦ rw (by_first_fit-some (machine o settings) s e ctx r _ fit) (
                Contained-noexcept (ThrownInto P (next settings s e) s)
                  (perform (machine o settings) r e ctx) w
                  (subst (λ t. Throws (ThrownInto P t s) (perform (machine o settings) r e ctx w))
                    (ap (target_of s) (sym fit) ∙ target-next o settings s e)
                    (perform-Throws r (ThrownInto P r.target s) e ctx w (found r fit)
                      (entry-Throws r.target s))))
          ]
    where
      found :
          (r : GatewayRow)
          → first_fit ((machine o settings).submachine_rows ++ (machine o settings).rows) s e
            ≡ some r
          → ThrowingAction (ThrownInto P r.target s) r.action
      found r fit =
          let (row, source, takes) = first_fit-AllRows (ThrowingRow P) _ s e machine-AllRows fit in
          row s source

module _ (sml : Sml) (o : Outside) (settings : Settings) where
  -- The state machine of a bridge throws nothing, in any state and for any event. An exception that
  -- ends the process in it is one that the states before and after allow: a `std::runtime_error` if
  -- the bridge terminates, if a Telegram call makes a new bridge call the SIP side, or if a call
  -- stays in its last state; that or a `pj::Error` if the event leads a call from Telegram to its
  -- last state, or a call from the SIP side to the wait for its media, out of the wait for Telegram;
  -- a `std::out_of_range` if the early state of the SIP side makes a bridge call Telegram; none with
  -- any other two states.
  pub process_event-aborts :
      (s : State) (e : Event) (ctx : Context) (w : World)
      → Contained
          (ThrownInto NotRangeError (next settings s e) s)
          (sml.process_event (machine o settings) s e ctx w)
  process_event-aborts = process_event-Contained sml o settings NotRangeError (any_ports o)
