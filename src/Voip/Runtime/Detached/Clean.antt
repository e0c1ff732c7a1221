-- ===== src/Voip/Runtime/Detached/Clean.antt =====
-- tg2sip/voip/ntgcalls_runtime.h, `CallDetached`: nothing leaks, and nothing is used after its end.
use tg2sip_webrtc.Prelude.{
  ℕ, zero, suc, ◌-◌, ◌≤◌, ◌≡◌, refl, Option, none, some, List, [], ◌∷◌, ◌++◌, Text, pos, arith,
  int_eq, ==_iff,
}
use tg2sip_webrtc.Outside.{NtgResult, rejected, errored}
use tg2sip_webrtc.Voip.Runtime.Blocking.Invariant.{IsAnswer}
use tg2sip_webrtc.Voip.Runtime.Detached.{
  Caller, Worker, System, start, move_caller, move_worker, Move, caller_on, worker_on, move, run,
}

-- The allocations that belong to a state of the two threads.
abbrev makes : Caller → ℕ
makes Caller.allocating = 0
makes c = 1

abbrev deletes : Worker → Caller → NtgResult → ℕ
deletes Worker.finished c r = 1
deletes p Caller.returned (rejected code) = 1
deletes p c r = 0

abbrev has_message : NtgResult → ℕ
has_message (errored code message) = 1
has_message r = 0

abbrev allocates : NtgResult → Worker → ℕ
allocates r Worker.absent = 0
allocates r Worker.writing = 0
allocates r p = has_message r

abbrev written : NtgResult → Worker → Option Text
written (errored code message) Worker.freeing = some message
written (errored code message) Worker.deleting = some message
written (errored code message) Worker.finished = some message
written r p = none

abbrev frees : NtgResult → Worker → ℕ
frees r Worker.deleting = has_message r
frees r Worker.finished = has_message r
frees r p = 0

-- Where the caller can be, by the worker.
abbrev Together : NtgResult → Worker → Caller → Type 0
Together (rejected code) Worker.absent (Caller.issued rc) = rc ≡ code
Together (rejected code) Worker.absent c = Unit {0}
Together r Worker.absent Caller.allocating = Unit {0}
Together r Worker.absent Caller.issuing = Unit {0}
Together r Worker.absent c = ⊥
Together (rejected code) p c = ⊥
Together r p (Caller.issued rc) = rc ≡ pos 0
Together r p Caller.returned = Unit {0}
Together r p c = ⊥

module _ (r : NtgResult) where
  record IsSound (s : System) : Type 0 where
    together : Together r s.worker s.caller
    made : s.made ≡ makes s.caller
    deleted : s.deleted ≡ deletes s.worker s.caller r
    message : s.message ≡ written r s.worker
    allocated : s.allocated ≡ allocates r s.worker
    freed : s.freed ≡ frees r s.worker
    wild : s.wild ≡ 0

  start-IsSound : IsSound start
  start-IsSound = ground arith

move_caller-IsSound :
    (r : NtgResult) (c : Caller) (p : Worker) (s : System)
    → IsAnswer r
    → s.caller ≡ c
    → s.worker ≡ p
    → IsSound r s
    → IsSound r (move_caller r c s)
unfolding move_caller
move_caller-IsSound r Caller.allocating p s a e e' h = ground arith
move_caller-IsSound r Caller.issuing p s a e e' h = ground arith
move_caller-IsSound r (Caller.issued rc) p s a e e' h = ground (arith, ==_iff rc (pos 0))
move_caller-IsSound r Caller.returned p s a e e' h = h

move_worker-IsSound :
    (r : NtgResult) (p : Worker) (c : Caller) (s : System)
    → s.worker ≡ p
    → s.caller ≡ c
    → IsSound r s
    → IsSound r (move_worker r p s)
unfolding move_worker
move_worker-IsSound r Worker.absent c s e e' h = h
move_worker-IsSound r Worker.writing c s e e' h = ground arith
move_worker-IsSound r Worker.freeing c s e e' h = ground arith
move_worker-IsSound r Worker.deleting c s e e' h = ground arith
move_worker-IsSound r Worker.finished c s e e' h = h

move-IsSound :
    (r : NtgResult) (m : Move) (s : System) → IsAnswer r → IsSound r s → IsSound r (move r m s)
unfolding move
move-IsSound r caller_on s a h = move_caller-IsSound r s.caller s.worker s a refl refl h
move-IsSound r worker_on s a h = move_worker-IsSound r s.worker s.caller s refl refl h

run-IsSound :
    (r : NtgResult) (ms : List Move) (s : System)
    → IsAnswer r
    → IsSound r s
    → IsSound r (run r ms s)
unfolding run
run-IsSound r [] s a h = h
run-IsSound r (m ∷ ms) s a h = run-IsSound r ms (move r m s) a (move-IsSound r m s a h)

-- Rounds in which the worker and then the caller move.
abbrev pub rounds : ℕ → List Move
rounds zero = []
rounds (suc n) = worker_on ∷ caller_on ∷ rounds n

-- The rounds that are left.
abbrev needs_absent : Caller → ℕ
needs_absent Caller.allocating = 5
needs_absent Caller.issuing = 4
needs_absent (Caller.issued rc) = 1
needs_absent Caller.returned = 0

abbrev needs_alone : Caller → ℕ
needs_alone Caller.returned = 0
needs_alone c = 1

abbrev needs : Worker → Caller → ℕ
needs Worker.absent c = needs_absent c
needs Worker.writing c = 3
needs Worker.freeing c = 2
needs Worker.deleting c = 1
needs Worker.finished c = needs_alone c

-- Both threads are through, and have cleaned up: one state made and deleted, the message freed as
-- often as it was allocated, and no access to a state that was not there.
pub record IsClean (s : System) : Type 0 where
  pub returned : s.caller ≡ Caller.returned
  pub made_once : s.made ≡ 1
  pub deleted_once : s.deleted ≡ 1
  pub none_left : s.freed ≡ s.allocated
  pub never_wild : s.wild ≡ 0

module _ (r : NtgResult) where
  needs-round :
      (p : Worker) (c : Caller) (s : System)
      → IsAnswer r
      → s.worker ≡ p
      → s.caller ≡ c
      → IsSound r s
      → needs (run r (rounds 1) s).worker (run r (rounds 1) s).caller ≤ needs p c - 1
  unfolding run move move_caller move_worker
  needs-round Worker.absent c s a e e' h = ground arith
  needs-round Worker.writing c s a e e' h = ground arith
  needs-round Worker.freeing c s a e e' h = ground arith
  needs-round Worker.deleting c s a e e' h = ground arith
  needs-round Worker.finished c s a e e' h = ground arith

  needs_none :
      (p : Worker) (c : Caller) (s : System)
      → s.worker ≡ p
      → s.caller ≡ c
      → IsSound r s
      → needs p c ≤ 0
      → IsClean s
  needs_none Worker.absent c s e e' h none_left = ground arith
  needs_none Worker.finished c s e e' h none_left = ground arith
  needs_none _ c s e e' h none_left = ground arith

  rounds_end :
      (n : ℕ) (s : System)
      → IsAnswer r
      → IsSound r s
      → needs s.worker s.caller ≤ n
      → IsClean (run r (rounds n) s)
  unfolding run
  rounds_end zero s a h enough = needs_none s.worker s.caller s refl refl h enough
  rounds_end (suc n) s a h enough =
      rounds_end n (run r (rounds 1) s) a (run-IsSound r (rounds 1) s a h)
        (omega (arith, needs-round s.worker s.caller s a refl refl h))

  needs-le : (p : Worker) (c : Caller) → needs p c ≤ 5
  needs-le p c = ground arith

  run-append : (ms ns : List Move) (s : System) → run r (ms ++ ns) s ≡ run r ns (run r ms s)
  unfolding run
  run-append [] ns s = refl
  run-append (m ∷ ms) ns s = run-append ms ns (move r m s)

  -- For an answer of ntgcalls that is a rejection only with a code other than 0: however the caller
  -- of `CallDetached` and the worker of ntgcalls have interleaved, five rounds of both end the call,
  -- with its state made and deleted once, the message of an error freed exactly if ntgcalls has
  -- allocated one, and no access to the state before it was made or after it was deleted.
  pub call_detached-IsClean : (ms : List Move) → IsAnswer r → IsClean (run r (ms ++ rounds 5) start)
  call_detached-IsClean ms a =
      let s = run r ms start in
      let sound = run-IsSound r ms start a (start-IsSound r) in
      rw (run-append ms (rounds 5) start) (rounds_end 5 s a sound (needs-le s.worker s.caller))
