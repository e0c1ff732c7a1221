-- ===== src/Gateway/Progress.antt =====
-- tg2sip/gateway.cpp: the order of a bridge's states.
use mathlib.Core.Logic.{ite, if_pos, if_neg}
use tg2sip_webrtc.Prelude.{
  ℕ, ◌+◌, ◌<◌, ◌≤◌, ◌≡◌, refl, sym, ap, ◌∙◌, List, [], ◌∷◌, Bool-cases, inl, inr, ◌⊎◌, arith,
}
use tg2sip_webrtc.Settings.{Settings}
use tg2sip_webrtc.Outside.{Outside}
use tg2sip_webrtc.Gateway.Sml.{Sml}
use tg2sip_webrtc.World.{World, done, incoming_call, call_state_update, call_media_state_update}
use tg2sip_webrtc.Gateway.Context.{Context, Event, tg_call, tg_message, sip, internal_error}
use tg2sip_webrtc.Gateway.Machine.{
  machine, FromTg, FromSip, State, init, from_tg, from_sip, terminated,
}
use tg2sip_webrtc.Gateway.Transitions.{
  state-process_event, ends, advance_tg, advance_sip, begin, next,
}

-- How far a call has got.
abbrev pub rank : State → ℕ
rank init = 0
rank (from_tg FromTg.sip_wait_media) = 1
rank (from_tg FromTg.wait_tg) = 2
rank (from_tg FromTg.wait_dtmf) = 3
rank (from_sip FromSip.sip_wait_confirm) = 1
rank (from_sip FromSip.wait_tg) = 2
rank (from_sip FromSip.sip_wait_media) = 3
rank (from_sip FromSip.wait_dtmf) = 4
rank terminated = 5

rank-advance_tg :
    (q : FromTg) (e : Event)
    → (advance_tg q e ≡ q) ⊎ (rank (from_tg q) < rank (from_tg (advance_tg q e)))
rank-advance_tg FromTg.sip_wait_media (sip (call_media_state_update id has_media)) = ground arith
rank-advance_tg FromTg.sip_wait_media _ = inl refl
rank-advance_tg FromTg.wait_tg (tg_call u) = ground arith
rank-advance_tg FromTg.wait_tg _ = inl refl
rank-advance_tg FromTg.wait_dtmf (tg_call u) = inl refl
rank-advance_tg FromTg.wait_dtmf _ = inl refl

rank-advance_sip :
    (q : FromSip) (e : Event)
    → (advance_sip q e ≡ q) ⊎ (rank (from_sip q) < rank (from_sip (advance_sip q e)))
rank-advance_sip FromSip.sip_wait_confirm (sip (call_state_update id state)) = ground arith
rank-advance_sip FromSip.sip_wait_confirm _ = inl refl
rank-advance_sip FromSip.wait_tg (tg_call u) = ground arith
rank-advance_sip FromSip.wait_tg _ = inl refl
rank-advance_sip FromSip.sip_wait_media (sip (call_media_state_update id has_media)) = ground arith
rank-advance_sip FromSip.sip_wait_media _ = inl refl
rank-advance_sip FromSip.wait_dtmf (tg_call u) = inl refl
rank-advance_sip FromSip.wait_dtmf _ = inl refl

rank-begin :
    (settings : Settings) (e : Event) → (begin settings e ≡ init) ⊎ (0 < rank (begin settings e))
rank-begin settings (tg_call u) = ground arith
rank-begin settings (tg_message m) = inl refl
rank-begin settings (sip (incoming_call id extension)) = inr (omega arith)
rank-begin settings (sip _) = inr (omega arith)
rank-begin settings (internal_error prm) = inl refl

rank-lt-terminated_tg : (q : FromTg) → rank (from_tg q) < 5
rank-lt-terminated_tg FromTg.sip_wait_media = omega arith
rank-lt-terminated_tg _ = omega arith

rank-lt-terminated_sip : (q : FromSip) → rank (from_sip q) < 5
rank-lt-terminated_sip FromSip.sip_wait_confirm = omega arith
rank-lt-terminated_sip _ = omega arith

rank-next :
    (settings : Settings) (s : State) (e : Event)
    → (next settings s e ≡ s) ⊎ (rank s < rank (next settings s e))
unfolding next
rank-next settings init e = rank-begin settings e
rank-next settings (from_tg q) e = elim (Bool-cases (ends e)) [
  | inl over ↦ inr (rw over (rank-lt-terminated_tg q))
  | inr goes_on ↦ elim (rank-advance_tg q e) [
    | inl same ↦ inl (rw goes_on (ap from_tg same))
    | inr further ↦ inr (rw goes_on further)
  ]
]
rank-next settings (from_sip q) e = elim (Bool-cases (ends e)) [
  | inl over ↦ inr (rw over (rank-lt-terminated_sip q))
  | inr goes_on ↦ elim (rank-advance_sip q e) [
    | inl same ↦ inl (rw goes_on (ap from_sip same))
    | inr further ↦ inr (rw goes_on further)
  ]
]
rank-next settings terminated e = inl refl

State_discrete : Discrete State
State_discrete = hlevel

rank-le : (s : State) → rank s ≤ 5
rank-le init = omega arith
rank-le (from_tg q) = omega (arith, rank-lt-terminated_tg q)
rank-le (from_sip q) = omega (arith, rank-lt-terminated_sip q)
rank-le terminated = omega arith

-- A bridge that processes events one after the other, without an exception: its states in order.
-- Between two events the world may change in any way.
pub data Run (sml : Sml) (o : Outside) (settings : Settings)
    : State → Context → List State → Type 0 where
  stays : {s : State} {ctx : Context} → Run sml o settings s ctx []
  step :
      {s s' : State} {ctx ctx' : Context} {trail : List State} (e : Event) (w w' : World)
      → sml.process_event (machine o settings) s e ctx w ≡ done (s', ctx') w'
      → Run sml o settings s' ctx' trail
      → Run sml o settings s ctx (s' ∷ trail)

-- How often the state changes along the way.
pub switches : State → List State → ℕ
switches s [] = 0
switches s (s' ∷ trail) = ite (State_discrete s' s) 0 1 + switches s' trail

module _ (sml : Sml) (o : Outside) (settings : Settings) where
  -- Whatever events a bridge processes, and whatever happens in between, the number of times that
  -- its state changes, added to the rank of its first state, is at most five. So a new bridge
  -- changes its state at most five times, and a terminated one never again.
  pub Run-switches :
      (s : State) (ctx : Context) (trail : List State)
      → Run sml o settings s ctx trail
      → switches s trail + rank s ≤ 5
  unfolding switches
  Run-switches s ctx [] stays = omega (arith, rank-le s)
  Run-switches s ctx (s' ∷ trail) (step {ctx' = ctx'} e w w' processed rest) =
      let rest_le = Run-switches s' ctx' trail rest in
      let moved = state-process_event sml o settings s e ctx w processed in
      elim (rank-next settings s e) [
        | inl same ↦
            rw (if_pos (State_discrete s' s) (moved ∙ same))
              (omega (arith, rest_le, ap rank (moved ∙ same)))
        | inr further ↦
            rw (if_neg (State_discrete s' s) (λ q. omega (arith, further, ap rank (sym moved ∙ q))))
              (omega (arith, rest_le, further, ap rank moved))
      ]
