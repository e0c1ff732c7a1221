-- ===== src/Voip/Runtime/Dispatch/Safety.antt =====
-- tg2sip/voip/ntgcalls_runtime.h, ntgcalls_runtime.cpp: no callback reaches a sink that is gone, and
-- `Unregister` returns.

use tg2sip_webrtc.Prelude.{
  ℕ, ◌≡◌, ◌≢◌, ℤ, Bool, true, false, List, [], ◌∷◌, ==_iff, arith, nat_eq, int_eq,
}
use tg2sip_webrtc.Voip.Runtime.Dispatch.{
  Owner, Callback, Holder, System, start, Move, starts, stops, destroys, owner_on, fires,
  callback_on, move, run, move_owner, move_callback, begin_register, begin_unregister, finish, fire,
}
use tg2sip_webrtc.Voip.Runtime.Dispatch.Invariant.{IsSafe, is_attached, reached-IsSafe, run-IsSafe}

-- `Register` of controller `i` is not called.
abbrev pub AvoidsStart : ℕ → List Move → Type 0
AvoidsStart i [] = Unit {0}
AvoidsStart i (starts k ∷ ms) = (k ≢ i) × AvoidsStart i ms
AvoidsStart i (_ ∷ ms) = AvoidsStart i ms

-- Out of reach of the table, and in no call of the runtime.
abbrev is_out : Owner → Bool
is_out Owner.detached = true
is_out Owner.destroyed = true
is_out p = false

module _ (user_of : ℕ → ℤ) where
  -- However the threads of the controllers and the callbacks of ntgcalls interleave: a callback that
  -- is in a sink holds the mutex, and the controller that the sink belongs to is between the store of
  -- its `Register` and the erasure of its `Unregister`, so the sink is not destroyed.
  pub in_sink-is_attached :
      (ms : List Move) (j i : ℕ)
      → (run user_of ms start).thread j ≡ Callback.in_sink i
      → (is_attached ((run user_of ms start).owner i) ≡ true)
        × ((run user_of ms start).mutex ≡ Holder.callback j)
  in_sink-is_attached ms j i e =
      let safe = reached-IsSafe user_of ms in (safe.calls j i e, safe.by_callback j (rw e))

  out_of_sinks :
      (s : System) (j i : ℕ)
      → IsSafe user_of s
      → is_out (s.owner i) ≡ true
      → s.thread j ≢ Callback.in_sink i
  out_of_sinks s j i safe out e = ground (arith, safe.calls j i e)

  -- A move of another controller, or of a callback.
  owner-move :
      (m : Move) (i : ℕ) (s : System)
      → is_out (s.owner i) ≡ true
      → AvoidsStart i (m ∷ [])
      → is_out ((move user_of m s).owner i) ≡ true
  unfolding move move_owner move_callback begin_register begin_unregister finish fire
  owner-move (starts k) i s out h = ground (arith, ==_iff k i)
  owner-move (stops k) i s out h = ground (arith, ==_iff k i)
  owner-move (destroys k) i s out h = ground (arith, ==_iff k i)
  owner-move (owner_on k) i s out h = ground (arith, ==_iff k i)
  owner-move (fires j u) i s out h = ground arith
  owner-move (callback_on j) i s out h = ground arith

  AvoidsStart-cons :
      (i : ℕ) (m : Move) (ms : List Move)
      → AvoidsStart i (m ∷ ms)
      → AvoidsStart i (m ∷ []) × AvoidsStart i ms
  AvoidsStart-cons i (starts k) ms h = ((h.0, tt), h.1)
  AvoidsStart-cons i (stops k) ms h = (tt, h)
  AvoidsStart-cons i (destroys k) ms h = (tt, h)
  AvoidsStart-cons i (owner_on k) ms h = (tt, h)
  AvoidsStart-cons i (fires j u) ms h = (tt, h)
  AvoidsStart-cons i (callback_on j) ms h = (tt, h)

  owner-run :
      (ms : List Move) (i : ℕ) (s : System)
      → is_out (s.owner i) ≡ true
      → AvoidsStart i ms
      → is_out ((run user_of ms s).owner i) ≡ true
  unfolding run
  owner-run [] i s out h = out
  owner-run (m ∷ ms) i s out h =
      let (first, rest) = AvoidsStart-cons i m ms h in
      owner-run ms i (move user_of m s) (owner-move m i s out first) rest

  -- Once a controller is detached, as `Unregister` leaves it, no callback is in its sink, and none
  -- comes into it, whatever the threads do afterwards, until `Register` is called for it again.
  pub detached-silent :
      (ms later : List Move) (j i : ℕ)
      → (run user_of ms start).owner i ≡ Owner.detached
      → AvoidsStart i later
      → (run user_of later (run user_of ms start)).thread j ≢ Callback.in_sink i
  detached-silent ms later j i e h =
      out_of_sinks (run user_of later (run user_of ms start)) j i
        (run-IsSafe user_of later (run user_of ms start) (reached-IsSafe user_of ms))
        (owner-run later i (run user_of ms start) (rw e) h)
