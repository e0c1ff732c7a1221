-- ===== src/Voip/Runtime/Dispatch.antt =====
-- tg2sip/voip/ntgcalls_runtime.cpp: `Register`, `Unregister` and the two trampolines, on the threads
-- of any number of controllers and of ntgcalls' callbacks, interleaved at each access to the mutex
-- and to the table. A sink is a member of its controller (tg2sip/voip/controller.h) and is named by it.
pub mod Invariant
pub mod Safety
pub mod Waiting
mod Tests
use tg2sip_webrtc.Prelude.{
  ℕ, Option, none, some, List, [], ◌∷◌, ℤ, Bool, true, false, if◌then◌else◌, ◌==◌, nat_eq, int_eq,
  lookup, assign, erase,
}

-- Where a controller stands, with its lifetime: before `Register` and behind `Unregister` it is
-- `detached`, and `destroyed` when its destructor has run.
pub data Owner : Type 0 where
  detached : Owner
  -- `Register`: before the lock, before the store, before the unlock.
  registering storing stored : Owner
  registered : Owner
  -- `Unregister`: before the lock, before the erasure, before the unlock.
  unregistering erasing erased : Owner
  destroyed : Owner

-- Where a thread of ntgcalls stands in `SignalingTrampoline` or `FramesTrampoline`.
pub data Callback : Type 0 where
  idle : Callback
  entering : (user_id : ℤ) → Callback
  looking_up : (user_id : ℤ) → Callback
  -- In `on_signaling_data` or `on_frames` of the sink.
  in_sink : ℕ → Callback
  leaving : Callback

-- Who holds `mutex_`.
pub data Holder : Type 0 where
  nobody : Holder
  controller : ℕ → Holder
  callback : ℕ → Holder

pub record System : Type 0 where
  pub mutex : Holder
  pub sinks : List (ℤ × ℕ)
  pub owner : ℕ → Owner
  pub thread : ℕ → Callback

abbrev pub start : System
start = record {
  mutex = Holder.nobody;
  sinks = [];
  owner = λ i. Owner.detached;
  thread = λ j. Callback.idle;
}

-- A family of threads with thread `i` elsewhere.
abbrev pub update {ℓ} : {A : Type ℓ} → (ℕ → A) → ℕ → A → ℕ → A
update f i a k = if i == k then a else f k

abbrev pub is_free : Holder → Bool
is_free Holder.nobody = true
is_free h = false

-- `std::lock_guard`: the thread goes on if the mutex is free, and waits if not.
abbrev pub locking : Holder → System → System → System
locking h s next = if is_free s.mutex then record next { mutex = h } else s

abbrev pub owner_at : ℕ → Owner → System → System
owner_at i p s = record s { owner = update s.owner i p }

abbrev pub thread_at : ℕ → Callback → System → System
thread_at j p s = record s { thread = update s.thread j p }

-- The next access of a controller that is in `Register` or `Unregister`.
unfoldable pub move_owner : (ℕ → ℤ) → ℕ → Owner → System → System
move_owner user_of i Owner.registering s =
    locking (Holder.controller i) s (owner_at i Owner.storing s)
move_owner user_of i Owner.storing s = record (owner_at i Owner.stored s) {
  sinks = assign (user_of i) i s.sinks;
}
move_owner user_of i Owner.stored s = record (owner_at i Owner.registered s) {
  mutex = Holder.nobody;
}
move_owner user_of i Owner.unregistering s =
    locking (Holder.controller i) s (owner_at i Owner.erasing s)
move_owner user_of i Owner.erasing s = record (owner_at i Owner.erased s) {
  sinks = erase (user_of i) s.sinks;
}
move_owner user_of i Owner.erased s = record (owner_at i Owner.detached s) { mutex = Holder.nobody }
move_owner user_of i p s = s

-- What the trampoline does with what it finds.
abbrev pub dispatch : Option ℕ → Callback
dispatch none = Callback.leaving
dispatch (some sink) = Callback.in_sink sink

-- The next access of a trampoline.
unfoldable pub move_callback : ℕ → Callback → System → System
move_callback j Callback.idle s = s
move_callback j (Callback.entering user_id) s =
    locking (Holder.callback j) s (thread_at j (Callback.looking_up user_id) s)
move_callback j (Callback.looking_up user_id) s = thread_at j (dispatch (lookup user_id s.sinks)) s
move_callback j (Callback.in_sink sink) s = thread_at j Callback.leaving s
move_callback j Callback.leaving s = record (thread_at j Callback.idle s) { mutex = Holder.nobody }

-- `TgCallsController::Start` registers a controller that is not registered.
unfoldable pub begin_register : ℕ → Owner → System → System
begin_register i Owner.detached s = owner_at i Owner.registering s
begin_register i p s = s

-- `Stop` unregisters a controller that is registered.
unfoldable pub begin_unregister : ℕ → Owner → System → System
begin_unregister i Owner.registered s = owner_at i Owner.unregistering s
begin_unregister i p s = s

-- The destructor of a controller that is registered begins with `Stop`, and goes on where that has
-- left the controller detached.
unfoldable pub finish : ℕ → Owner → System → System
finish i Owner.detached s = owner_at i Owner.destroyed s
finish i Owner.registered s = owner_at i Owner.unregistering s
finish i p s = s

-- ntgcalls calls a trampoline for a user.
unfoldable pub fire : ℕ → ℤ → Callback → System → System
fire j user_id Callback.idle s = thread_at j (Callback.entering user_id) s
fire j user_id p s = s

pub data Move : Type 0 where
  starts : ℕ → Move
  stops : ℕ → Move
  destroys : ℕ → Move
  owner_on : ℕ → Move
  fires : ℕ → ℤ → Move
  callback_on : ℕ → Move

module _ (user_of : ℕ → ℤ) where
  unfoldable pub move : Move → System → System
  unfolding move_owner move_callback begin_register begin_unregister finish fire
  move (starts i) s = begin_register i (s.owner i) s
  move (stops i) s = begin_unregister i (s.owner i) s
  move (destroys i) s = finish i (s.owner i) s
  move (owner_on i) s = move_owner user_of i (s.owner i) s
  move (fires j user_id) s = fire j user_id (s.thread j) s
  move (callback_on j) s = move_callback j (s.thread j) s

  unfoldable pub run : List Move → System → System
  unfolding move
  run [] s = s
  run (m ∷ ms) s = run ms (move m s)
