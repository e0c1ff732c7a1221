-- ===== src/Gateway/Schedule/Taken.antt =====
-- tg2sip/gateway.cpp, the loop of `Gateway::start`: every event that waits in a queue is taken.

use tg2sip_webrtc.Prelude.{
  ℕ, zero, suc, ◌<◌, ◌≡◌, refl, sym, ap, Option, some, List, [], ◌∷◌, ◌++◌, get_elem?, append-nil,
  arith,
}
use tg2sip_webrtc.Outside.{Outside}
use tg2sip_webrtc.OptionalQueue
use tg2sip_webrtc.OptionalQueue.{OptionalQueue}
use tg2sip_webrtc.World.{World, done, ◌>>=◌, >>=-eq-done, TgUpdate, SipEvent}
use tg2sip_webrtc.Settings.{Settings}
use tg2sip_webrtc.Gateway.Sml.{Sml}
use tg2sip_webrtc.Gateway.Process.{Gateway, tick, process_update, process_sip}
use tg2sip_webrtc.Gateway.Numbers.{IsNumbered}
use tg2sip_webrtc.Gateway.Schedule.{
  Arrival, from_tdlib, from_pjsip, from_ntgcalls, enqueue, Happening, round, arrives, rounds, run,
}
use tg2sip_webrtc.Gateway.Schedule.Rounds.{Parts, tick-Parts}

get_elem?-append {ℓ} :
    {A : Type ℓ} (xs ys : List A) (i : ℕ) {a : A}
    → get_elem? xs i ≡ some a
    → get_elem? (xs ++ ys) i ≡ some a
get_elem?-append [] ys i h = cc h
get_elem?-append (x ∷ xs) ys zero h = h
get_elem?-append (x ∷ xs) ys (suc i) h = get_elem?-append xs ys i h

get_elem?-pop {ℓ} :
    {T : Type ℓ} (q : OptionalQueue T) (k : ℕ) {u : Option T}
    → get_elem? q (suc k) ≡ some u
    → get_elem? (OptionalQueue.pop q).1 k ≡ some u
unfolding OptionalQueue.pop
get_elem?-pop [] k h = h
get_elem?-pop (x ∷ q) k h = h

module _ (sml : Sml) (o : Outside) (settings : Settings) where
  -- The run, up to a round that begins in `g` and `w` after `count` others.
  pub record Round (hs : List Happening) (g : Gateway) (w : World) (count : ℕ) : Type 0 where
    pub before : List Happening
    pub after : List Happening
    pub start : Gateway × World
    pub end : Gateway × World
    pub splits : before ++ round ∷ after ≡ hs
    pub counted : rounds before ≡ count
    pub reached : run sml o settings before g w ≡ done start.0 start.1
    pub numbered : IsNumbered start.0
    pub ticked : tick sml o settings start.0 start.1 ≡ done end.0 end.1

  -- A queue of which a round takes the first, and to which other threads only add.
  module _ {T : Type 0} (queue : World → OptionalQueue T)
      (takes_first : (g : Gateway) (w : World) (g' : Gateway) (w' : World)
        → IsNumbered g
        → tick sml o settings g w ≡ done g' w'
        → queue w' ≡ (OptionalQueue.pop (queue w)).1)
      (adds : (a : Arrival) (w : World)
        → (more : OptionalQueue T) × (queue (enqueue a w) ≡ queue w ++ more)) where
    -- The event at place `k` is the first of its queue when the round after `k` others begins.
    place_reached :
        (hs : List Happening) (k : ℕ) (g : Gateway) (w : World) (u : Option T) {g' : Gateway}
        {w' : World}
        → IsNumbered g
        → run sml o settings hs g w ≡ done g' w'
        → get_elem? (queue w) k ≡ some u
        → k < rounds hs
        → (r : Round hs g w k) × (get_elem? (queue r.start.1) 0 ≡ some u)
    unfolding run rounds
    place_reached [] k g w u n e at_k more = elim more [ ]
    place_reached (arrives a ∷ hs) k g w u n e at_k more =
        let (new, added) = adds a w in
        let (r, head) =
          place_reached hs k g (enqueue a w) u n e
            (rw added (get_elem?-append (queue w) new k at_k)) more in
        (
          record {
            before = arrives a ∷ r.before;
            after = r.after;
            start = r.start;
            end = r.end;
            splits = ap (λ hs'. arrives a ∷ hs') r.splits;
            counted = r.counted;
            reached = r.reached;
            numbered = r.numbered;
            ticked = r.ticked;
          },
          head,
        )
    place_reached (round ∷ hs) zero g w u n e at_k more =
        let (g₁, w₁, ticks, rest) =
          >>=-eq-done (tick sml o settings g) (run sml o settings hs) w e in
        (
          record {
            before = [];
            after = hs;
            start = (g, w);
            end = (g₁, w₁);
            splits = refl;
            counted = refl;
            reached = refl;
            numbered = n;
            ticked = ticks;
          },
          at_k,
        )
    place_reached (round ∷ hs) (suc k) g w u n e at_k more =
        let (g₁, w₁, ticks, rest) =
          >>=-eq-done (tick sml o settings g) (run sml o settings hs) w e in
        let (r, head) =
          place_reached hs k g₁ w₁ u (tick-Parts sml o settings g w n ticks).numbered rest
            (rw (takes_first g w g₁ w₁ n ticks) (get_elem?-pop (queue w) k at_k)) (omega arith) in
        (
          record {
            before = round ∷ r.before;
            after = r.after;
            start = r.start;
            end = r.end;
            splits = ap (λ hs'. round ∷ hs') r.splits;
            counted = ap suc r.counted;
            reached = rw (ticks, ◌>>=◌) r.reached;
            numbered = r.numbered;
            ticked = r.ticked;
          },
          head,
        )

  adds_updates :
      (a : Arrival) (w : World)
      → (more : OptionalQueue TgUpdate) × ((enqueue a w).tg_events ≡ w.tg_events ++ more)
  unfolding enqueue OptionalQueue.emplace
  adds_updates (from_tdlib u) w = (some u ∷ [], refl)
  adds_updates (from_pjsip e) w = ([], sym (append-nil w.tg_events))
  adds_updates (from_ntgcalls e) w = ([], sym (append-nil w.tg_events))

  adds_sip_events :
      (a : Arrival) (w : World)
      → (more : OptionalQueue SipEvent) × ((enqueue a w).sip_events ≡ w.sip_events ++ more)
  unfolding enqueue OptionalQueue.emplace
  adds_sip_events (from_tdlib u) w = ([], sym (append-nil w.sip_events))
  adds_sip_events (from_pjsip e) w = (some e ∷ [], refl)
  adds_sip_events (from_ntgcalls e) w = ([], sym (append-nil w.sip_events))

  pop-head {ℓ} :
      {T : Type ℓ} (q : OptionalQueue T) (u : Option T)
      → get_elem? q 0 ≡ some u
      → (OptionalQueue.pop q).0 ≡ u
  unfolding OptionalQueue.pop
  pop-head [] u h = cc h
  pop-head (v ∷ q) u h = cc h

  -- The round after `k` others, and in it the handling of the update.
  abbrev pub UpdateTaken : List Happening → ℕ → Gateway → World → TgUpdate → Type 0
  UpdateTaken hs k g w u =
      (r : Round hs g w k) × (p : Parts sml o settings r.start.0 r.start.1 r.end.0 r.end.1)
      × (process_update sml o settings u p.after_internal.0 (record p.after_internal.1 {
        tg_events = (OptionalQueue.pop p.after_internal.1.tg_events).1;
      })
          ≡ done p.after_update.0 p.after_update.1)

  abbrev pub SipEventTaken : List Happening → ℕ → Gateway → World → SipEvent → Type 0
  SipEventTaken hs k g w event =
      (r : Round hs g w k) × (p : Parts sml o settings r.start.0 r.start.1 r.end.0 r.end.1)
      × (process_sip sml o settings event p.after_update.0 (record p.after_update.1 {
        sip_events = (OptionalQueue.pop p.after_update.1.sip_events).1;
      })
          ≡ done r.end.0 r.end.1)

  -- An update of Telegram that waits behind `k` other entries is handled in the round after the
  -- next `k`, with the bridges that the internal event of that round has left, in any run of the
  -- loop with more than `k` rounds, begun with numbered bridges, that no exception ends, whatever
  -- the other threads emplace in the meantime.
  pub update_taken :
      (hs : List Happening) (k : ℕ) (g : Gateway) (w : World) (u : TgUpdate) {g' : Gateway}
      {w' : World}
      → IsNumbered g
      → run sml o settings hs g w ≡ done g' w'
      → get_elem? w.tg_events k ≡ some (some u)
      → k < rounds hs
      → UpdateTaken hs k g w u
  update_taken hs k g w u n e at_k more =
      let (r, head) =
        place_reached (λ v. v.tg_events)
          (λ g w g' w' n ticks. (tick-Parts sml o settings g w n ticks).tg_rest) adds_updates hs k g
          w (some u) n e at_k more in
      let p = tick-Parts sml o settings r.start.0 r.start.1 r.numbered r.ticked in
      (r, p, rw (pop-head p.after_internal.1.tg_events (some u) (rw p.tg_queue head)) at p.tg_part)

  -- An event of PJSIP that waits behind `k` other entries is handled in the round after the next
  -- `k`, with the bridges that the update of Telegram in that round has left, in any run of the
  -- loop with more than `k` rounds, begun with numbered bridges, that no exception ends, whatever
  -- the other threads emplace in the meantime.
  sip_event_taken :
      (hs : List Happening) (k : ℕ) (g : Gateway) (w : World) (event : SipEvent) {g' : Gateway}
      {w' : World}
      → IsNumbered g
      → run sml o settings hs g w ≡ done g' w'
      → get_elem? w.sip_events k ≡ some (some event)
      → k < rounds hs
      → SipEventTaken hs k g w event
  sip_event_taken hs k g w event n e at_k more =
      let (r, head) =
        place_reached (λ v. v.sip_events)
          (λ g w g' w' n ticks. (tick-Parts sml o settings g w n ticks).sip_rest) adds_sip_events hs
          k g w (some event) n e at_k more in
      let p = tick-Parts sml o settings r.start.0 r.start.1 r.numbered r.ticked in
      (
        r,
        p,
        rw (pop-head p.after_update.1.sip_events (some event) (rw p.sip_queue head)) at p.sip_part,
      )
