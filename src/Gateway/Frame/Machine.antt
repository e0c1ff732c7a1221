-- ===== src/Gateway/Frame/Machine.antt =====
-- tg2sip/gateway.cpp, `process_event` of the state machine: the id of the bridge's context, and the
-- other threads' queues.

use tg2sip_webrtc.Prelude.{◌≡◌, refl, ◌∙◌, ◌++◌, Option-cases, inl, inr, arith}
use tg2sip_webrtc.Outside.{Outside}
use tg2sip_webrtc.World.{World}
use tg2sip_webrtc.Settings.{Settings}
use tg2sip_webrtc.Gateway.Context.{Context, Event}
use tg2sip_webrtc.Gateway.Actions.{
  store_sip_id, store_tg_id, store_tg_user_id, clean_tg_id, clean_sip_id, set_hangup_prm, dial_sip,
  accept_incoming_sip, answer_sip, create_tg_voip, bridge_audio,
}
use tg2sip_webrtc.Gateway.Sml.{
  Sml, first_fit, perform, process_event_lem, by_first_fit-none, by_first_fit-some,
}
use tg2sip_webrtc.Gateway.Machine.{
  State, init, from_tg, from_sip, terminated, GatewayRow, machine, from_tg_table, from_sip_table,
  state_machine_table, entry, ◌then_do◌, no_action,
}
use tg2sip_webrtc.Gateway.Rows.{AllRows, no_rows, ◌▹◌, AllRows-++, first_fit-AllRows}
use tg2sip_webrtc.Gateway.Frame.Rules.{Ends, Ends-bind, Ends-noexcept, FramedAction, then_do-Framed}
use tg2sip_webrtc.Gateway.Frame.Steps.{
  clean_up-Framed, dial_sip-Framed, answer_tg-Framed, accept_incoming_sip-Framed, answer_sip-Framed,
  create_tg_voip-Framed, bridge_audio-Framed, dial_dtmf-Framed,
}
use tg2sip_webrtc.Gateway.Frame.Dial.{dial_tg-Framed}

store_sip_id-Framed : FramedAction store_sip_id
unfolding store_sip_id
store_sip_id-Framed e ctx w = ground arith

store_tg_id-Framed : FramedAction store_tg_id
unfolding store_tg_id
store_tg_id-Framed e ctx w = ground arith

store_tg_user_id-Framed : FramedAction store_tg_user_id
unfolding store_tg_user_id
store_tg_user_id-Framed e ctx w = ground arith

clean_tg_id-Framed : FramedAction clean_tg_id
unfolding clean_tg_id
clean_tg_id-Framed e ctx w = ground arith

clean_sip_id-Framed : FramedAction clean_sip_id
unfolding clean_sip_id
clean_sip_id-Framed e ctx w = ground arith

set_hangup_prm-Framed : FramedAction set_hangup_prm
unfolding set_hangup_prm
set_hangup_prm-Framed e ctx w = ground arith

no_action-Framed : FramedAction no_action
no_action-Framed e ctx w = (refl, (refl, refl))

abbrev FramedRow : GatewayRow → Type 0
FramedRow r = FramedAction r.action

module _ (sml : Sml) (o : Outside) (settings : Settings) where
  from_tg_table-AllFramed : AllRows FramedRow (from_tg_table o settings)
  unfolding from_tg_table
  from_tg_table-AllFramed =
      answer_tg-Framed o settings
      ▹ then_do-Framed (create_tg_voip o settings) (bridge_audio o settings)
          (create_tg_voip-Framed o settings) (bridge_audio-Framed o settings)
      ▹ dial_dtmf-Framed o settings
      ▹ no_rows

  from_sip_table-AllFramed : AllRows FramedRow (from_sip_table o settings)
  unfolding from_sip_table
  from_sip_table-AllFramed =
      dial_tg-Framed o settings
      ▹ then_do-Framed store_tg_user_id (create_tg_voip o settings then_do answer_sip o settings)
          store_tg_user_id-Framed
          (then_do-Framed (create_tg_voip o settings) (answer_sip o settings)
            (create_tg_voip-Framed o settings) (answer_sip-Framed o settings))
      ▹ bridge_audio-Framed o settings
      ▹ dial_dtmf-Framed o settings
      ▹ no_rows

  state_machine_table-AllFramed : AllRows FramedRow (state_machine_table o settings)
  unfolding state_machine_table
  state_machine_table-AllFramed =
      then_do-Framed store_tg_id (store_tg_user_id then_do dial_sip o settings) store_tg_id-Framed (
        then_do-Framed store_tg_user_id (dial_sip o settings) store_tg_user_id-Framed
          (dial_sip-Framed o settings))
      ▹ store_tg_id-Framed
      ▹ no_action-Framed
      ▹ then_do-Framed store_sip_id (accept_incoming_sip o settings) store_sip_id-Framed
          (accept_incoming_sip-Framed o settings)
      ▹ no_action-Framed
      ▹ no_action-Framed
      ▹ clean_tg_id-Framed
      ▹ clean_sip_id-Framed
      ▹ set_hangup_prm-Framed
      ▹ clean_tg_id-Framed
      ▹ set_hangup_prm-Framed
      ▹ clean_sip_id-Framed
      ▹ no_rows

  machine-AllFramed :
      AllRows FramedRow ((machine o settings).submachine_rows ++ (machine o settings).rows)
  unfolding machine
  machine-AllFramed =
      AllRows-++ (AllRows-++ from_tg_table-AllFramed from_sip_table-AllFramed)
        state_machine_table-AllFramed

  entry-Framed : (s : State) → FramedAction (entry o settings s)
  unfolding entry
  entry-Framed init e ctx w = (refl, (refl, refl))
  entry-Framed (from_tg q) e ctx w = (refl, (refl, refl))
  entry-Framed (from_sip q) e ctx w = (refl, (refl, refl))
  entry-Framed terminated e ctx w = clean_up-Framed o settings e ctx w

  perform-Framed :
      (r : GatewayRow) (e : Event) (ctx : Context) (w : World)
      → FramedAction r.action
      → Ends (λ p. p.1.id ≡ ctx.id) w (perform (machine o settings) r e ctx w)
  unfolding machine
  perform-Framed r e ctx w h =
      Ends-bind (λ c. c.id ≡ ctx.id) (λ p. p.1.id ≡ ctx.id) (r.action e ctx) _ w (h e ctx w)
        λ c v same.
          Ends-bind (λ d. d.id ≡ c.id) (λ p. p.1.id ≡ ctx.id) (entry o settings r.target e c) _ v
            (entry-Framed r.target e c v) λ d u same'. (same' ∙ same, (refl, refl))

  -- Whatever the event and the state, and however the call ends, the context keeps its id and the
  -- queues of the other threads are as they were.
  pub process_event-Framed :
      (s : State) (e : Event) (ctx : Context) (w : World)
      → Ends (λ p. p.1.id ≡ ctx.id) w (sml.process_event (machine o settings) s e ctx w)
  process_event-Framed s e ctx w =
      rw (process_event_lem sml (machine o settings) s e ctx)
        elim (Option-cases
          (first_fit ((machine o settings).submachine_rows ++ (machine o settings).rows) s e)) [
            | inl nothing ↦
                rw (by_first_fit-none (machine o settings) s e ctx _ nothing) (refl, (refl, refl))
            | inr (r, fit) ↦ rw (by_first_fit-some (machine o settings) s e ctx r _ fit) (
                Ends-noexcept (λ p. p.1.id ≡ ctx.id) (perform (machine o settings) r e ctx) w
                  (perform-Framed r e ctx w
                    ((first_fit-AllRows FramedRow _ s e machine-AllFramed fit).0)))
          ]
