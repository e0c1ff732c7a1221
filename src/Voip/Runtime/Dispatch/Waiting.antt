-- ===== src/Voip/Runtime/Dispatch/Waiting.antt =====
-- tg2sip/voip/ntgcalls_runtime.cpp: `Unregister` waits for one callback at most, and returns.
use tg2sip_webrtc.Prelude.{
  ℕ, ◌≡◌, refl, ℤ, true, List, [], ◌∷◌, ◌++◌, ==_iff, arith, nat_eq, int_eq,
}
use tg2sip_webrtc.Voip.Runtime.Dispatch.{
  Owner, Callback, Holder, System, start, Move, owner_on, callback_on, move, run, move_owner,
  move_callback,
}
use tg2sip_webrtc.Voip.Runtime.Dispatch.Invariant.{
  IsSafe, owner_holds, callback_holds, reached-IsSafe,
}

-- The moves in which the holder of the mutex goes on until it unlocks.
abbrev pub let_go : Holder → List Move
let_go Holder.nobody = []
let_go (Holder.controller k) = owner_on k ∷ owner_on k ∷ []
let_go (Holder.callback j) = callback_on j ∷ callback_on j ∷ callback_on j ∷ []

-- A whole `Unregister`.
abbrev pub goes_on : ℕ → List Move
goes_on i = owner_on i ∷ owner_on i ∷ owner_on i ∷ []

module _ (user_of : ℕ → ℤ) where
  goes_on_free :
      (i : ℕ) (s : System)
      → s.mutex ≡ Holder.nobody
      → s.owner i ≡ Owner.unregistering
      → ((run user_of (goes_on i) s).owner i ≡ Owner.detached)
        × ((run user_of (goes_on i) s).mutex ≡ Holder.nobody)
  unfolding run move move_owner
  goes_on_free i s free e = ground (arith, ==_iff i i)

  controller_lets_go :
      (k i : ℕ) (p : Owner) (s : System)
      → s.owner k ≡ p
      → owner_holds p ≡ true
      → s.owner i ≡ Owner.unregistering
      → ((run user_of (let_go (Holder.controller k)) s).owner i ≡ Owner.unregistering)
        × ((run user_of (let_go (Holder.controller k)) s).mutex ≡ Holder.nobody)
  unfolding run move move_owner
  controller_lets_go k i Owner.storing s e holds w = ground (arith, ==_iff k i, ==_iff k k)
  controller_lets_go k i Owner.stored s e holds w = ground (arith, ==_iff k i, ==_iff k k)
  controller_lets_go k i Owner.erasing s e holds w = ground (arith, ==_iff k i, ==_iff k k)
  controller_lets_go k i Owner.erased s e holds w = ground (arith, ==_iff k i, ==_iff k k)
  controller_lets_go k i _ s e holds w = cc holds

  callback_lets_go :
      (j i : ℕ) (p : Callback) (s : System)
      → s.thread j ≡ p
      → callback_holds p ≡ true
      → s.owner i ≡ Owner.unregistering
      → ((run user_of (let_go (Holder.callback j)) s).owner i ≡ Owner.unregistering)
        × ((run user_of (let_go (Holder.callback j)) s).mutex ≡ Holder.nobody)
  unfolding run move move_callback
  callback_lets_go j i (Callback.looking_up u) s e holds w = ground (arith, ==_iff j j)
  callback_lets_go j i (Callback.in_sink k) s e holds w = ground (arith, ==_iff j j)
  callback_lets_go j i Callback.leaving s e holds w = ground (arith, ==_iff j j)
  callback_lets_go j i _ s e holds w = cc holds

  holder_lets_go :
      (k : Holder) (i : ℕ) (s : System)
      → IsSafe user_of s
      → s.mutex ≡ k
      → s.owner i ≡ Owner.unregistering
      → ((run user_of (let_go k) s).owner i ≡ Owner.unregistering)
        × ((run user_of (let_go k) s).mutex ≡ Holder.nobody)
  unfolding run
  holder_lets_go Holder.nobody i s safe m w = (w, m)
  holder_lets_go (Holder.controller k) i s safe m w =
      controller_lets_go k i (s.owner k) s refl (safe.held_owner k m) w
  holder_lets_go (Holder.callback j) i s safe m w =
      callback_lets_go j i (s.thread j) s refl (safe.held_callback j m) w

  run-append :
      (ms ns : List Move) (s : System)
      → run user_of (ms ++ ns) s ≡ run user_of ns (run user_of ms s)
  unfolding run
  run-append [] ns s = refl
  run-append (m ∷ ms) ns s = run-append ms ns (move user_of m s)

  -- In whatever state the threads are when a controller has called `Unregister`: once the holder of
  -- the mutex, if there is one, has made the moves up to its unlock, at most three, three moves of the
  -- controller lead out of `Unregister`, and the mutex is free.
  pub unregister_ends :
      (ms : List Move) (i : ℕ)
      → (run user_of ms start).owner i ≡ Owner.unregistering
      → ((run user_of (ms ++ let_go (run user_of ms start).mutex ++ goes_on i) start).owner i
          ≡ Owner.detached)
        × ((run user_of (ms ++ let_go (run user_of ms start).mutex ++ goes_on i) start).mutex
            ≡ Holder.nobody)
  unregister_ends ms i e =
      let s = run user_of ms start in
      let (waits, free) = holder_lets_go s.mutex i s (reached-IsSafe user_of ms) refl e in
      rw (run-append (ms ++ let_go s.mutex) (goes_on i) start, run-append ms (let_go s.mutex) start)
        (goes_on_free i (run user_of (let_go s.mutex) s) free waits)
