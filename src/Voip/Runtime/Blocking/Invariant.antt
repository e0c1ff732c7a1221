-- ===== src/Voip/Runtime/Blocking/Invariant.antt =====
-- tg2sip/voip/ntgcalls_runtime.h, `CallBlocking`: what holds between any two accesses.
use tg2sip_webrtc.Prelude.{
  ℕ, ◌≡◌, ◌≢◌, refl, Option, none, some, List, [], ◌∷◌, Text, ℤ, pos, Bool, true, false, arith,
  if◌then◌else◌, ◌==◌, int_eq, ==_iff,
}
use tg2sip_webrtc.Outside.{NtgResult, completed, rejected, errored}
use tg2sip_webrtc.Voip.Runtime.Blocking.{
  Caller, Worker, Holder, System, start, Move, caller_on, worker_on, spurious, move, run,
  move_caller, move_worker, wake, rejection, failure,
}

-- How the call is to end.
abbrev pub ended_as : NtgResult → Caller
ended_as completed = Caller.returned
ended_as (rejected code) = Caller.threw_error (rejection code)
ended_as (errored code message) =
    if code == pos 0 then Caller.returned else Caller.threw_error (failure code message)

-- Where the caller can be while the worker is absent, has not locked, holds the mutex before the
-- notification, holds it behind it, and has finished.
abbrev WithAbsent : NtgResult → Caller → Type 0
WithAbsent r Caller.issuing = Unit {0}
WithAbsent (rejected code) (Caller.issued rc) = rc ≡ code
WithAbsent (rejected code) (Caller.threw_error message) = message ≡ rejection code
WithAbsent r c = ⊥

abbrev WithBusy : Caller → Type 0
WithBusy (Caller.issued rc) = rc ≡ pos 0
WithBusy Caller.entering = Unit {0}
WithBusy Caller.testing = Unit {0}
WithBusy Caller.asleep = Unit {0}
WithBusy Caller.woken = Unit {0}
WithBusy c = ⊥

abbrev WithLocked : Caller → Type 0
WithLocked (Caller.issued rc) = rc ≡ pos 0
WithLocked Caller.entering = Unit {0}
WithLocked Caller.asleep = Unit {0}
WithLocked Caller.woken = Unit {0}
WithLocked c = ⊥

abbrev WithNotified : Caller → Type 0
WithNotified (Caller.issued rc) = rc ≡ pos 0
WithNotified Caller.entering = Unit {0}
WithNotified Caller.woken = Unit {0}
WithNotified c = ⊥

abbrev WithFinished : NtgResult → Caller → Type 0
WithFinished r (Caller.issued rc) = rc ≡ pos 0
WithFinished r Caller.entering = Unit {0}
WithFinished r Caller.testing = Unit {0}
WithFinished r Caller.woken = Unit {0}
WithFinished r Caller.reading = Unit {0}
WithFinished r Caller.returned = ended_as r ≡ Caller.returned
WithFinished r (Caller.threw_error message) = ended_as r ≡ Caller.threw_error message
WithFinished r c = ⊥

abbrev pub Together : NtgResult → Worker → Caller → Type 0
Together r Worker.absent c = WithAbsent r c
Together r Worker.writing c = WithBusy c
Together r Worker.entering c = WithBusy c
Together r Worker.setting c = WithLocked c
Together r Worker.notifying c = WithLocked c
Together r Worker.unlocking c = WithNotified c
Together r Worker.finished c = WithFinished r c

abbrev holder_by : Caller → Holder
holder_by Caller.testing = Holder.caller
holder_by Caller.reading = Holder.caller
holder_by c = Holder.nobody

abbrev holder : Worker → Caller → Holder
holder Worker.setting c = Holder.worker
holder Worker.notifying c = Holder.worker
holder Worker.unlocking c = Holder.worker
holder p c = holder_by c

abbrev has_set : Worker → Bool
has_set Worker.notifying = true
has_set Worker.unlocking = true
has_set Worker.finished = true
has_set p = false

abbrev written_code : NtgResult → ℤ
written_code (errored code message) = code
written_code r = pos 0

abbrev written_message : NtgResult → Option Text
written_message (errored code message) = some message
written_message r = none

abbrev before_writes : Worker → Bool
before_writes Worker.absent = true
before_writes Worker.writing = true
before_writes p = false

-- The frees of the message so far.
abbrev pub frees : NtgResult → Caller → ℕ
frees (errored code message) (Caller.threw_error error) = 1
frees r c = 0

abbrev IsTaken : NtgResult → Worker → Type 0
IsTaken r Worker.absent = Unit {0}
IsTaken (rejected code) p = ⊥
IsTaken r p = Unit {0}

module _ (r : NtgResult) where
  pub record IsSound (s : System) : Type 0 where
    pub together : Together r s.worker s.caller
    pub held : s.m ≡ holder s.worker s.caller
    pub set : s.done ≡ has_set s.worker
    pub code : s.error_code ≡ (if before_writes s.worker then pos 0 else written_code r)
    pub message : s.error_message ≡ (if before_writes s.worker then none else written_message r)
    pub freed : s.freed ≡ frees r s.caller
    pub taken : IsTaken r s.worker

  start-IsSound : IsSound start
  start-IsSound = ground arith

-- `issue` returns another code than 0 exactly if it rejects the call.
abbrev pub IsAnswer : NtgResult → Type 0
IsAnswer (rejected code) = code ≢ pos 0
IsAnswer r = Unit {0}

move_worker-IsSound :
    (r : NtgResult) (p : Worker) (c : Caller) (s : System)
    → s.worker ≡ p
    → s.caller ≡ c
    → IsSound r s
    → IsSound r (move_worker r p s)
unfolding move_worker
move_worker-IsSound r Worker.absent c s e e' h = h
move_worker-IsSound r Worker.writing c s e e' h = ground arith
move_worker-IsSound r Worker.entering c s e e' h = ground arith
move_worker-IsSound r Worker.setting c s e e' h = ground arith
move_worker-IsSound r Worker.notifying c s e e' h = ground arith
move_worker-IsSound r Worker.unlocking c s e e' h = ground arith
move_worker-IsSound r Worker.finished c s e e' h = h

move_caller-IsSound :
    (r : NtgResult) (c : Caller) (s : System)
    → IsAnswer r
    → s.caller ≡ c
    → IsSound r s
    → IsSound r (move_caller r c s)
unfolding move_caller
move_caller-IsSound r Caller.issuing s a e h = ground arith
move_caller-IsSound r (Caller.issued rc) s a e h = ground (arith, ==_iff rc (pos 0))
move_caller-IsSound r Caller.entering s a e h = ground arith
move_caller-IsSound r Caller.testing s a e h = ground arith
move_caller-IsSound r Caller.asleep s a e h = h
move_caller-IsSound r Caller.woken s a e h = ground arith
move_caller-IsSound r Caller.reading s a e h = ground arith
move_caller-IsSound r Caller.returned s a e h = h
move_caller-IsSound r (Caller.threw_error message) s a e h = h

wake-IsSound :
    (r : NtgResult) (c : Caller) (s : System) → s.caller ≡ c → IsSound r s → IsSound r (wake c s)
unfolding wake
wake-IsSound r Caller.asleep s e h = ground arith
wake-IsSound r _ s e h = h

move-IsSound :
    (r : NtgResult) (m : Move) (s : System) → IsAnswer r → IsSound r s → IsSound r (move r m s)
unfolding move
move-IsSound r caller_on s a h = move_caller-IsSound r s.caller s a refl h
move-IsSound r worker_on s a h = move_worker-IsSound r s.worker s.caller s refl refl h
move-IsSound r spurious s a h = wake-IsSound r s.caller s refl h

pub run-IsSound :
    (r : NtgResult) (ms : List Move) (s : System)
    → IsAnswer r
    → IsSound r s
    → IsSound r (run r ms s)
unfolding run
run-IsSound r [] s a h = h
run-IsSound r (m ∷ ms) s a h = run-IsSound r ms (move r m s) a (move-IsSound r m s a h)

-- Every state that the two threads can reach.
pub reached-IsSound : (r : NtgResult) (ms : List Move) → IsAnswer r → IsSound r (run r ms start)
reached-IsSound r ms a = run-IsSound r ms start a (start-IsSound r)
