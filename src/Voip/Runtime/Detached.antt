-- ===== src/Voip/Runtime/Detached.antt =====
-- tg2sip/voip/ntgcalls_runtime.h: `CallDetached`: the state of the call is on the heap, and is deleted
-- by the promise on the worker of ntgcalls, or by the caller if the call is rejected.
pub mod Clean
mod Tests
use tg2sip_webrtc.Prelude.{
  ℕ, ◌+◌, Option, none, some, List, [], ◌∷◌, Text, ℤ, pos, Bool, true, false, if◌then◌else◌, ◌==◌,
  int_eq, nat_eq,
}
use tg2sip_webrtc.Outside.{NtgResult, completed, rejected, errored}
use tg2sip_webrtc.Voip.Runtime.Blocking.{code_of}

pub data Caller : Type 0 where
  allocating issuing : Caller
  issued : (rc : ℤ) → Caller
  returned : Caller

-- The promise frees the message and then deletes the state.
pub data Worker : Type 0 where
  absent writing freeing deleting finished : Worker

-- `new State()` and `delete state` so far, the same of the message that ntgcalls allocates, and the
-- accesses to the state while it was not allocated.
pub record System : Type 0 where
  pub made : ℕ
  pub deleted : ℕ
  pub message : Option Text
  pub allocated : ℕ
  pub freed : ℕ
  pub wild : ℕ
  pub caller : Caller
  pub worker : Worker

abbrev pub start : System
start = record {
  made = 0;
  deleted = 0;
  message = none;
  allocated = 0;
  freed = 0;
  wild = 0;
  caller = Caller.allocating;
  worker = Worker.absent;
}

-- An access to the state.
abbrev pub touch : System → System
touch s = if s.made == s.deleted + 1 then s else record s { wild = s.wild + 1 }

abbrev pub worker_of : NtgResult → Worker
worker_of (rejected code) = Worker.absent
worker_of r = Worker.writing

abbrev pub write : NtgResult → System → System
write (errored code message) s = record s { message = some message; allocated = s.allocated + 1 }
write r s = s

-- `std::free`, which does nothing with a null pointer.
abbrev pub free : Option Text → ℕ → ℕ
free none n = n
free (some message) n = n + 1

module _ (r : NtgResult) where
  unfoldable pub move_caller : Caller → System → System
  move_caller Caller.allocating s = record s { made = s.made + 1; caller = Caller.issuing }
  move_caller Caller.issuing s = record (touch s) {
    caller = Caller.issued (code_of r);
    worker = worker_of r;
  }
  move_caller (Caller.issued rc) s =
      if rc == pos 0
      then record s { caller = Caller.returned }
      else record (touch s) { deleted = s.deleted + 1; caller = Caller.returned }
  move_caller Caller.returned s = s

  unfoldable pub move_worker : Worker → System → System
  move_worker Worker.writing s = record (write r (touch s)) { worker = Worker.freeing }
  move_worker Worker.freeing s = record (touch s) {
    freed = free s.message s.freed;
    worker = Worker.deleting;
  }
  move_worker Worker.deleting s = record (touch s) {
    deleted = s.deleted + 1;
    worker = Worker.finished;
  }
  move_worker p s = s

pub data Move : Type 0 where
  caller_on worker_on : Move

module _ (r : NtgResult) where
  unfoldable pub move : Move → System → System
  unfolding move_caller move_worker
  move caller_on s = move_caller r s.caller s
  move worker_on s = move_worker r s.worker s

  unfoldable pub run : List Move → System → System
  unfolding move
  run [] s = s
  run (m ∷ ms) s = run ms (move m s)
