-- ===== src/Voip/Runtime/Dispatch/Invariant.antt =====
-- tg2sip/voip/ntgcalls_runtime.cpp: what holds between any two accesses.
use tg2sip_webrtc.Prelude.{
  ℕ, ◌≡◌, refl, ℤ, Bool, true, false, some, none, List, [], ◌∷◌, lookup, lookup-assign,
  lookup-erase, assign, erase, Option, inl, inr, Bool-cases, ◌≢◌, int_eq, ==_iff, arith, nat_eq,
}
use tg2sip_webrtc.Voip.Runtime.Dispatch.{
  Owner, Callback, Holder, System, start, update, Move, starts, stops, destroys, owner_on, fires,
  callback_on, move, run, move_owner, move_callback, begin_register, is_free, locking, dispatch,
  owner_at, thread_at, begin_unregister, finish, fire,
}

-- The controller holds the mutex.
abbrev pub owner_holds : Owner → Bool
owner_holds Owner.storing = true
owner_holds Owner.stored = true
owner_holds Owner.erasing = true
owner_holds Owner.erased = true
owner_holds p = false

-- The thread holds the mutex.
abbrev pub callback_holds : Callback → Bool
callback_holds (Callback.looking_up user_id) = true
callback_holds (Callback.in_sink sink) = true
callback_holds Callback.leaving = true
callback_holds p = false

-- The table may name the controller's sink: from the store of `Register` to the erasure.
abbrev pub is_attached : Owner → Bool
is_attached Owner.stored = true
is_attached Owner.registered = true
is_attached Owner.unregistering = true
is_attached Owner.erasing = true
is_attached p = false

module _ (user_of : ℕ → ℤ) where
  pub record IsSafe (s : System) : Type 0 where
    pub by_owner : (i : ℕ) → owner_holds (s.owner i) ≡ true → s.mutex ≡ Holder.controller i
    pub by_callback : (j : ℕ) → callback_holds (s.thread j) ≡ true → s.mutex ≡ Holder.callback j
    pub held_owner : (i : ℕ) → s.mutex ≡ Holder.controller i → owner_holds (s.owner i) ≡ true
    pub held_callback : (j : ℕ) → s.mutex ≡ Holder.callback j → callback_holds (s.thread j) ≡ true
    pub entries :
        (user_id : ℤ) (i : ℕ)
        → lookup user_id s.sinks ≡ some i
        → (user_of i ≡ user_id) × (is_attached (s.owner i) ≡ true)
    pub calls : (j i : ℕ) → s.thread j ≡ Callback.in_sink i → is_attached (s.owner i) ≡ true

  start-IsSafe : IsSafe start
  start-IsSafe = record {
    by_owner = λ i h. cc h;
    by_callback = λ j h. cc h;
    held_owner = λ i h. cc h;
    held_callback = λ j h. cc h;
    entries = λ u i h. cc h;
    calls = λ j i h. cc h;
  }

  module _ (i : ℕ) (q : Owner) (s : System) (h : IsSafe s) where
    -- A step of a controller outside the mutex and the table.
    quiet_owner :
        owner_holds q ≡ owner_holds (s.owner i)
        → is_attached q ≡ is_attached (s.owner i)
        → IsSafe (record s { owner = update s.owner i q })
    quiet_owner same same' = record {
      by_owner = λ k e. ground (arith, ==_iff i k, h.by_owner k, h.by_owner i);
      by_callback = h.by_callback;
      held_owner = λ k e. ground (arith, ==_iff i k, h.held_owner k, h.held_owner i);
      held_callback = h.held_callback;
      entries = λ u k e. ground (arith, ==_iff i k, h.entries u k);
      calls = λ j k e. ground (arith, ==_iff i k, h.calls j k);
    }

    lock_owner :
        s.mutex ≡ Holder.nobody
        → owner_holds q ≡ true
        → is_attached q ≡ is_attached (s.owner i)
        → IsSafe (record s { owner = update s.owner i q; mutex = Holder.controller i })
    lock_owner free holds same = record {
      by_owner = λ k e. ground (arith, ==_iff i k, h.by_owner k);
      by_callback = λ j e. ground (arith, h.by_callback j);
      held_owner = λ k e. ground (arith, ==_iff i k);
      held_callback = λ j e. cc e;
      entries = λ u k e. ground (arith, ==_iff i k, h.entries u k);
      calls = λ j k e. ground (arith, ==_iff i k, h.calls j k);
    }

    unlock_owner :
        owner_holds (s.owner i) ≡ true
        → owner_holds q ≡ false
        → is_attached q ≡ is_attached (s.owner i)
        → IsSafe (record s { owner = update s.owner i q; mutex = Holder.nobody })
    unlock_owner held holds same = record {
      by_owner = λ k e. ground (arith, ==_iff i k, h.by_owner k, h.by_owner i);
      by_callback = λ j e. ground (arith, h.by_callback j, h.by_owner i);
      held_owner = λ k e. cc e;
      held_callback = λ j e. cc e;
      entries = λ u k e. ground (arith, ==_iff i k, h.entries u k);
      calls = λ j k e. ground (arith, ==_iff i k, h.calls j k);
    }

  store_owner :
      (i : ℕ) (s : System)
      → IsSafe s
      → s.owner i ≡ Owner.storing
      → IsSafe
          (record s { owner = update s.owner i Owner.stored; sinks = assign (user_of i) i s.sinks })
  store_owner i s h e = record {
    by_owner = λ k e'. ground (arith, ==_iff i k, h.by_owner k, h.by_owner i);
    by_callback = h.by_callback;
    held_owner = λ k e'. ground (arith, ==_iff i k, h.held_owner k);
    held_callback = h.held_callback;
    entries = λ u k e'. ground (
      arith,
      ==_iff i k,
      ==_iff (user_of i) u,
      lookup-assign (user_of i) u i s.sinks,
      h.entries u k,
    );
    calls = λ j k e'. ground (arith, ==_iff i k, h.calls j k);
  }

  erase_owner :
      (i : ℕ) (s : System)
      → IsSafe s
      → s.owner i ≡ Owner.erasing
      → IsSafe
          (record s { owner = update s.owner i Owner.erased; sinks = erase (user_of i) s.sinks })
  erase_owner i s h e = record {
    by_owner = λ k e'. ground (arith, ==_iff i k, h.by_owner k, h.by_owner i);
    by_callback = h.by_callback;
    held_owner = λ k e'. ground (arith, ==_iff i k, h.held_owner k);
    held_callback = h.held_callback;
    entries = λ u k e'. ground (
      arith,
      ==_iff i k,
      ==_iff (user_of i) u,
      lookup-erase (user_of i) u s.sinks,
      h.entries u k,
    );
    calls = λ j k e'. ground (arith, ==_iff i k, h.calls j k, h.by_owner i, h.by_callback j);
  }

  -- A step of a callback that keeps the mutex, into a sink only if the table's controller is attached.
  step_callback :
      (j : ℕ) (q : Callback) (s : System)
      → IsSafe s
      → callback_holds q ≡ callback_holds (s.thread j)
      → ((i : ℕ) → q ≡ Callback.in_sink i → is_attached (s.owner i) ≡ true)
      → IsSafe (record s { thread = update s.thread j q })
  step_callback j q s h same into = record {
    by_owner = h.by_owner;
    by_callback = λ k e. ground (arith, ==_iff j k, h.by_callback k, h.by_callback j);
    held_owner = h.held_owner;
    held_callback = λ k e. ground (arith, ==_iff j k, h.held_callback k, h.held_callback j);
    entries = h.entries;
    calls = λ k i e. ground (arith, ==_iff j k, h.calls k i, into i);
  }

  lock_callback :
      (j : ℕ) (q : Callback) (s : System)
      → IsSafe s
      → s.mutex ≡ Holder.nobody
      → callback_holds q ≡ true
      → ((i : ℕ) → q ≢ Callback.in_sink i)
      → IsSafe (record s { thread = update s.thread j q; mutex = Holder.callback j })
  lock_callback j q s h free holds out = record {
    by_owner = λ i e. ground (arith, h.by_owner i);
    by_callback = λ k e. ground (arith, ==_iff j k, h.by_callback k);
    held_owner = λ i e. cc e;
    held_callback = λ k e. ground (arith, ==_iff j k);
    entries = h.entries;
    calls = λ k i e. ground (arith, ==_iff j k, h.calls k i, out i);
  }

  unlock_callback :
      (j : ℕ) (s : System)
      → IsSafe s
      → s.thread j ≡ Callback.leaving
      → IsSafe (record s { thread = update s.thread j Callback.idle; mutex = Holder.nobody })
  unlock_callback j s h held = record {
    by_owner = λ i e. ground (arith, h.by_owner i, h.by_callback j);
    by_callback = λ k e. ground (arith, ==_iff j k, h.by_callback k, h.by_callback j);
    held_owner = λ i e. cc e;
    held_callback = λ k e. cc e;
    entries = h.entries;
    calls = λ k i e. ground (arith, ==_iff j k, h.calls k i);
  }

  is_free-nobody : (m : Holder) → is_free m ≡ true → m ≡ Holder.nobody
  is_free-nobody Holder.nobody e = refl
  is_free-nobody (Holder.controller i) e = cc e
  is_free-nobody (Holder.callback j) e = cc e

  -- A thread that waits for the mutex either gets it or stays.
  locking-IsSafe :
      (k : Holder) (s next : System)
      → IsSafe s
      → (s.mutex ≡ Holder.nobody → IsSafe (record next { mutex = k }))
      → IsSafe (locking k s next)
  locking-IsSafe k s next h got = elim (Bool-cases (is_free s.mutex)) [
    | inl free ↦ rw free (got (is_free-nobody s.mutex free))
    | inr held ↦ rw held h
  ]

  move_owner-IsSafe :
      (i : ℕ) (p : Owner) (s : System)
      → s.owner i ≡ p
      → IsSafe s
      → IsSafe (move_owner user_of i p s)
  unfolding move_owner
  move_owner-IsSafe i Owner.detached s e h = h
  move_owner-IsSafe i Owner.registering s e h =
      locking-IsSafe (Holder.controller i) s (owner_at i Owner.storing s) h
        λ free. lock_owner i Owner.storing s h free refl (rw e)
  move_owner-IsSafe i Owner.storing s e h = store_owner i s h e
  move_owner-IsSafe i Owner.stored s e h = unlock_owner i Owner.registered s h (rw e) refl (rw e)
  move_owner-IsSafe i Owner.registered s e h = h
  move_owner-IsSafe i Owner.unregistering s e h =
      locking-IsSafe (Holder.controller i) s (owner_at i Owner.erasing s) h
        λ free. lock_owner i Owner.erasing s h free refl (rw e)
  move_owner-IsSafe i Owner.erasing s e h = erase_owner i s h e
  move_owner-IsSafe i Owner.erased s e h = unlock_owner i Owner.detached s h (rw e) refl (rw e)
  move_owner-IsSafe i Owner.destroyed s e h = h

  dispatch-holds : (found : Option ℕ) → callback_holds (dispatch found) ≡ true
  dispatch-holds none = refl
  dispatch-holds (some i) = refl

  dispatch-in_sink :
      (found : Option ℕ) (i : ℕ) → dispatch found ≡ Callback.in_sink i → found ≡ some i
  dispatch-in_sink none i e = cc e
  dispatch-in_sink (some k) i e = cc e

  move_callback-IsSafe :
      (j : ℕ) (p : Callback) (s : System) → s.thread j ≡ p → IsSafe s → IsSafe (move_callback j p s)
  unfolding move_callback
  move_callback-IsSafe j Callback.idle s e h = h
  move_callback-IsSafe j (Callback.entering u) s e h =
      locking-IsSafe (Holder.callback j) s (thread_at j (Callback.looking_up u) s) h
        λ free. lock_callback j (Callback.looking_up u) s h free refl (λ i e'. cc e')
  move_callback-IsSafe j (Callback.looking_up u) s e h =
      step_callback j (dispatch (lookup u s.sinks)) s h (rw (dispatch-holds, e))
        λ i e'. (h.entries u i (dispatch-in_sink (lookup u s.sinks) i e')).1
  move_callback-IsSafe j (Callback.in_sink i) s e h =
      step_callback j Callback.leaving s h (rw e) (λ k e'. cc e')
  move_callback-IsSafe j Callback.leaving s e h = unlock_callback j s h e

  begin_register-IsSafe :
      (i : ℕ) (p : Owner) (s : System) → s.owner i ≡ p → IsSafe s → IsSafe (begin_register i p s)
  unfolding begin_register
  begin_register-IsSafe i Owner.detached s e h = quiet_owner i Owner.registering s h (rw e) (rw e)
  begin_register-IsSafe i _ s e h = h

  begin_unregister-IsSafe :
      (i : ℕ) (p : Owner) (s : System) → s.owner i ≡ p → IsSafe s → IsSafe (begin_unregister i p s)
  unfolding begin_unregister
  begin_unregister-IsSafe i Owner.registered s e h =
      quiet_owner i Owner.unregistering s h (rw e) (rw e)
  begin_unregister-IsSafe i _ s e h = h

  finish-IsSafe :
      (i : ℕ) (p : Owner) (s : System) → s.owner i ≡ p → IsSafe s → IsSafe (finish i p s)
  unfolding finish
  finish-IsSafe i Owner.detached s e h = quiet_owner i Owner.destroyed s h (rw e) (rw e)
  finish-IsSafe i Owner.registered s e h = quiet_owner i Owner.unregistering s h (rw e) (rw e)
  finish-IsSafe i _ s e h = h

  fire-IsSafe :
      (j : ℕ) (u : ℤ) (p : Callback) (s : System)
      → s.thread j ≡ p
      → IsSafe s
      → IsSafe (fire j u p s)
  unfolding fire
  fire-IsSafe j u Callback.idle s e h =
      step_callback j (Callback.entering u) s h (rw e) (λ i e'. cc e')
  fire-IsSafe j u _ s e h = h

  move-IsSafe : (m : Move) (s : System) → IsSafe s → IsSafe (move user_of m s)
  unfolding move
  move-IsSafe (starts i) s h = begin_register-IsSafe i (s.owner i) s refl h
  move-IsSafe (stops i) s h = begin_unregister-IsSafe i (s.owner i) s refl h
  move-IsSafe (destroys i) s h = finish-IsSafe i (s.owner i) s refl h
  move-IsSafe (owner_on i) s h = move_owner-IsSafe i (s.owner i) s refl h
  move-IsSafe (fires j u) s h = fire-IsSafe j u (s.thread j) s refl h
  move-IsSafe (callback_on j) s h = move_callback-IsSafe j (s.thread j) s refl h

  pub run-IsSafe : (ms : List Move) (s : System) → IsSafe s → IsSafe (run user_of ms s)
  unfolding run
  run-IsSafe [] s h = h
  run-IsSafe (m ∷ ms) s h = run-IsSafe ms (move user_of m s) (move-IsSafe m s h)

  -- Every state that the threads can reach.
  pub reached-IsSafe : (ms : List Move) → IsSafe (run user_of ms start)
  reached-IsSafe ms = run-IsSafe ms start start-IsSafe
