-- ===== src/Gateway/Bridging/Deliver.antt =====
-- tg2sip/gateway.cpp: `process_event` for the last bridge, where it is kept.
use tg2sip_webrtc.Prelude.{
  ◌+◌, ◌≡◌, refl, ◌∙◌, ap, List, [], ◌∷◌, ◌++◌, none, some, get_elem?, set, length, Bool, true,
  false, arith, Bool-cases, inl, inr, Option-cases, ==_iff, int_eq,
}
use tg2sip_webrtc.Outside.{Outside, UpdateCall}
use tg2sip_webrtc.World.{World, done, SipEvent}
use tg2sip_webrtc.Settings.{Settings}
use tg2sip_webrtc.Gateway.Context.{Context, Event, tg_call, sip}
use tg2sip_webrtc.Gateway.Sml.{Sml}
use tg2sip_webrtc.Gateway.Machine.{State, init, is_terminated, machine}
use tg2sip_webrtc.Gateway.Process.{
  Bridge, Gateway, find_index, search_call, feed, settle, deliver, add_bridge, process_call,
  process_sip, is_tg_call, is_sip_call, sip_event_id,
}
use tg2sip_webrtc.Gateway.Stray.{bind-done, get_elem?-last, fresh_context, search_call-none}

find_index-last :
    (p : Bridge → Bool) (bs : List Bridge) (b : Bridge)
    → find_index p bs ≡ none
    → p b ≡ true
    → find_index p (bs ++ b ∷ []) ≡ some (length bs)
unfolding find_index
find_index-last p [] b h own = ground (arith, own)
find_index-last p (c ∷ bs) b h own = elim (Bool-cases (p c)) [
  | inl holds ↦ absurd (ground (arith, h, holds))
  | inr fails ↦ elim (Option-cases (find_index p bs)) [
    | inl nothing ↦ rw (fails, find_index-last p bs b nothing own) refl
    | inr (i, there) ↦ absurd (ground (arith, h, fails, there))
  ]
]

pub search_call-last :
    (p : Bridge → Bool) (g : Gateway) (bs : List Bridge) (b : Bridge)
    → g.bridges ≡ bs ++ b ∷ []
    → find_index p bs ≡ none
    → p b ≡ true
    → search_call p g ≡ (g, length bs)
unfolding search_call
search_call-last p g bs b here h own =
    let found : find_index p g.bridges ≡ some (length bs) =
      (rw here (find_index-last p bs b h own)) in
    rw (found, search_call) refl

set-last : (bs : List Bridge) (b c : Bridge) → set (bs ++ b ∷ []) (length bs) c ≡ bs ++ c ∷ []
set-last [] b c = refl
set-last (d ∷ bs) b c = ap (λ ds. d ∷ ds) (set-last bs b c)

-- The gateway with a bridge more.
abbrev pub with_bridge : Gateway → State → Context → Gateway
with_bridge g s ctx = record g {
  bridges = g.bridges ++ record { sm = s; ctx = ctx } ∷ [];
  ctx_counter = g.ctx_counter + 1;
}

module _ (sml : Sml) (o : Outside) (settings : Settings) where
  -- The last bridge takes an event that does not end it.
  pub deliver-last :
      (e : Event) (g : Gateway) (bs : List Bridge) (b : Bridge) (s : State) (ctx : Context)
      (w v : World)
      → g.bridges ≡ bs ++ b ∷ []
      → sml.process_event (machine o settings) b.sm e b.ctx w ≡ done (s, ctx) v
      → is_terminated s ≡ false
      → deliver sml o settings e (g, length bs) w
        ≡ done (record g { bridges = bs ++ record { sm = s; ctx = ctx } ∷ [] }) v
  unfolding deliver feed settle
  deliver-last e g bs b s ctx w v here taken kept =
      let found : get_elem? g.bridges (length bs) ≡ some b = (rw here (get_elem?-last bs b)) in
      let stored : set g.bridges (length bs) (record { sm = s; ctx = ctx })
          ≡ bs ++ record { sm = s; ctx = ctx } ∷ [] =
        (rw here (set-last bs b (record { sm = s; ctx = ctx }))) in
      rw (found, deliver)
        (bind-done (feed sml o settings e b) _ w
            (bind-done (sml.process_event (machine o settings) b.sm e b.ctx) _ w taken)
          ∙ ground (arith, kept, stored))

  pub sip_event :
      (e : SipEvent) (g : Gateway) (q s : State) (ctx ctx' : Context) (w v : World)
      → find_index (is_sip_call (sip_event_id e)) g.bridges ≡ none
      → ctx.sip_call_id ≡ sip_event_id e
      → sml.process_event (machine o settings) q (sip e) ctx w ≡ done (s, ctx') v
      → is_terminated s ≡ false
      → process_sip sml o settings e (with_bridge g q ctx) w ≡ done (with_bridge g s ctx') v
  unfolding process_sip
  sip_event e g q s ctx ctx' w v other own taken kept =
      ap (λ found. deliver sml o settings (sip e) found w)
        (search_call-last (is_sip_call (sip_event_id e)) (with_bridge g q ctx) g.bridges _ refl
          other (ground (arith, own, ==_iff ctx.sip_call_id (sip_event_id e))))
      ∙ deliver-last (sip e) (with_bridge g q ctx) g.bridges _ s ctx' w v refl taken kept

  pub call_event :
      (u : UpdateCall) (g : Gateway) (q s : State) (ctx ctx' : Context) (w v : World)
      → find_index (is_tg_call u.id) g.bridges ≡ none
      → ctx.tg_call_id ≡ u.id
      → sml.process_event (machine o settings) q (tg_call u) ctx w ≡ done (s, ctx') v
      → is_terminated s ≡ false
      → process_call sml o settings u (with_bridge g q ctx) w ≡ done (with_bridge g s ctx') v
  unfolding process_call
  call_event u g q s ctx ctx' w v other own taken kept =
      ap (λ found. deliver sml o settings (tg_call u) found w)
        (search_call-last (is_tg_call u.id) (with_bridge g q ctx) g.bridges _ refl other
          (ground (arith, own, ==_iff ctx.tg_call_id u.id)))
      ∙ deliver-last (tg_call u) (with_bridge g q ctx) g.bridges _ s ctx' w v refl taken kept

  pub first_sip_event :
      (e : SipEvent) (g : Gateway) (s : State) (ctx' : Context) (w v : World)
      → find_index (is_sip_call (sip_event_id e)) g.bridges ≡ none
      → sml.process_event (machine o settings) init (sip e) (fresh_context g) w ≡ done (s, ctx') v
      → is_terminated s ≡ false
      → process_sip sml o settings e g w ≡ done (with_bridge g s ctx') v
  unfolding process_sip add_bridge
  first_sip_event e g s ctx' w v other taken kept =
      ap (λ found. deliver sml o settings (sip e) found w)
        (search_call-none sml o settings (is_sip_call (sip_event_id e)) g other)
      ∙ deliver-last (sip e) (add_bridge g) g.bridges _ s ctx' w v refl taken kept

  pub first_call_event :
      (u : UpdateCall) (g : Gateway) (s : State) (ctx' : Context) (w v : World)
      → find_index (is_tg_call u.id) g.bridges ≡ none
      → sml.process_event (machine o settings) init (tg_call u) (fresh_context g) w
        ≡ done (s, ctx') v
      → is_terminated s ≡ false
      → process_call sml o settings u g w ≡ done (with_bridge g s ctx') v
  unfolding process_call add_bridge
  first_call_event u g s ctx' w v other taken kept =
      ap (λ found. deliver sml o settings (tg_call u) found w)
        (search_call-none sml o settings (is_tg_call u.id) g other)
      ∙ deliver-last (tg_call u) (add_bridge g) g.bridges _ s ctx' w v refl taken kept
