-- ===== src/Voip/Runtime/Blocking/Ends.antt =====
-- tg2sip/voip/ntgcalls_runtime.h, `CallBlocking`: every interleaving ends it, with the outcome that
-- the rest of the gateway takes for the call.
use tg2sip_webrtc.Prelude.{
  ap, ◌∙◌, ℕ, zero, suc, ◌-◌, ◌≤◌, ◌≡◌, refl, List, [], ◌∷◌, ◌++◌, pos, Bool, true, false, arith,
  ◌==◌, int_eq, Bool-cases, inl, inr,
}
use tg2sip_webrtc.Outside.{NtgResult, completed, rejected, errored}
use tg2sip_webrtc.World.{M, pure, throw, no_meaning, runtime_error}
use tg2sip_webrtc.Voip.Controller.{blocking_result}
use tg2sip_webrtc.Voip.Runtime.Blocking.{
  Caller, Worker, System, start, Move, caller_on, worker_on, move, run, move_caller, move_worker,
}
use tg2sip_webrtc.Voip.Runtime.Blocking.Invariant.{
  IsSound, IsAnswer, ended_as, frees, reached-IsSound, run-IsSound,
}

abbrev pub has_ended : Caller → Bool
has_ended Caller.returned = true
has_ended (Caller.threw_error message) = true
has_ended c = false

-- The worker touches the state of the call no more.
abbrev pub is_away : Worker → Bool
is_away Worker.absent = true
is_away Worker.finished = true
is_away p = false

-- What the caller's end is to the rest of the gateway.
abbrev pub outcome : Caller → M (Unit {0})
outcome Caller.returned = pure tt
outcome (Caller.threw_error message) = throw (runtime_error message)
outcome c = no_meaning

outcome-ended_as : (r : NtgResult) → outcome (ended_as r) ≡ blocking_result r
outcome-ended_as completed = refl
outcome-ended_as (rejected code) = refl
outcome-ended_as (errored code message) = elim (Bool-cases (code == pos 0)) [
  | inl fine ↦ rw fine
  | inr wrong ↦ rw wrong
]

sound_end :
    (r : NtgResult) (p : Worker) (c : Caller) (s : System)
    → s.worker ≡ p
    → s.caller ≡ c
    → has_ended c ≡ true
    → IsSound r s
    → (c ≡ ended_as r) × (is_away p ≡ true)
sound_end r Worker.absent c s e e' d h = ground arith
sound_end r Worker.finished c s e e' d h = ground arith
sound_end r _ c s e e' d h = ground arith

-- Rounds in which the worker and then the caller move.
abbrev pub rounds : ℕ → List Move
rounds zero = []
rounds (suc n) = worker_on ∷ caller_on ∷ rounds n

-- The rounds that the caller still needs.
abbrev needs_busy : Caller → ℕ
needs_busy Caller.entering = 8
needs_busy Caller.woken = 8
needs_busy c = 7

abbrev needs_entering : Caller → ℕ
needs_entering Caller.testing = 7
needs_entering c = 6

abbrev needs_unlocking : Caller → ℕ
needs_unlocking (Caller.issued rc) = 4
needs_unlocking c = 3

abbrev needs_alone : Caller → ℕ
needs_alone (Caller.issued rc) = 4
needs_alone Caller.entering = 3
needs_alone Caller.woken = 3
needs_alone Caller.testing = 2
needs_alone Caller.reading = 1
needs_alone c = 0

abbrev needs_absent : Caller → ℕ
needs_absent Caller.issuing = 8
needs_absent (Caller.issued rc) = 1
needs_absent c = 0

abbrev needs : Worker → Caller → ℕ
needs Worker.absent c = needs_absent c
needs Worker.writing c = needs_busy c
needs Worker.entering c = needs_entering c
needs Worker.setting c = 5
needs Worker.notifying c = 4
needs Worker.unlocking c = needs_unlocking c
needs Worker.finished c = needs_alone c

module _ (r : NtgResult) where
  needs-round :
      (p : Worker) (c : Caller) (s : System)
      → IsAnswer r
      → s.worker ≡ p
      → s.caller ≡ c
      → IsSound r s
      → needs (run r (rounds 1) s).worker (run r (rounds 1) s).caller ≤ needs p c - 1
  unfolding run move move_caller move_worker
  needs-round Worker.absent c s a e e' h = ground arith
  needs-round Worker.writing c s a e e' h = ground arith
  needs-round Worker.entering c s a e e' h = ground arith
  needs-round Worker.setting c s a e e' h = ground arith
  needs-round Worker.notifying c s a e e' h = ground arith
  needs-round Worker.unlocking c s a e e' h = ground arith
  needs-round Worker.finished c s a e e' h = ground arith

  needs_none :
      (p : Worker) (c : Caller) (s : System)
      → s.worker ≡ p
      → s.caller ≡ c
      → IsSound r s
      → needs p c ≤ 0
      → has_ended c ≡ true
  needs_none Worker.absent c s e e' h none_left = ground arith
  needs_none Worker.finished c s e e' h none_left = ground arith
  needs_none _ c s e e' h none_left = ground arith

  rounds_end :
      (n : ℕ) (s : System)
      → IsAnswer r
      → IsSound r s
      → needs s.worker s.caller ≤ n
      → has_ended (run r (rounds n) s).caller ≡ true
  unfolding run
  rounds_end zero s a h enough = needs_none s.worker s.caller s refl refl h enough
  rounds_end (suc n) s a h enough =
      rounds_end n (run r (rounds 1) s) a (run-IsSound r (rounds 1) s a h)
        (omega (arith, needs-round s.worker s.caller s a refl refl h))

  needs-le : (p : Worker) (c : Caller) → needs p c ≤ 8
  needs-le p c = ground arith

  run-append : (ms ns : List Move) (s : System) → run r (ms ++ ns) s ≡ run r ns (run r ms s)
  unfolding run
  run-append [] ns s = refl
  run-append (m ∷ ms) ns s = run-append ms ns (move r m s)

  -- For an answer of ntgcalls that is a rejection only with a code other than 0: whenever
  -- `CallBlocking` has ended, however the caller and the worker of ntgcalls have interleaved and
  -- whatever wake-ups were spurious, it has ended as `blocking_result` says of that answer, the
  -- worker will not touch the state of the call any more, and the message was freed once if
  -- it belongs to an error that was thrown, and not at all otherwise.
  pub call_blocking-ended :
      (ms : List Move)
      → IsAnswer r
      → has_ended (run r ms start).caller ≡ true
      → (outcome (run r ms start).caller ≡ blocking_result r)
        × (is_away (run r ms start).worker ≡ true)
        × ((run r ms start).freed ≡ frees r (run r ms start).caller)
  call_blocking-ended ms a e =
      let s = run r ms start in
      let sound = reached-IsSound r ms a in
      let (right, away) = sound_end r s.worker s.caller s refl refl e sound in
      (ap outcome right ∙ outcome-ended_as r, away, sound.freed)

  -- For such an answer, and from every state that the two threads can reach, eight rounds in which
  -- the worker and then the caller move end `CallBlocking`: no wake-up is lost.
  pub call_blocking-ends :
      (ms : List Move) → IsAnswer r → has_ended (run r (ms ++ rounds 8) start).caller ≡ true
  call_blocking-ends ms a =
      let s = run r ms start in
      rw (run-append ms (rounds 8) start)
        (rounds_end 8 s a (reached-IsSound r ms a) (needs-le s.worker s.caller))
