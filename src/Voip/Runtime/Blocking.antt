-- ===== src/Voip/Runtime/Blocking.antt =====
-- tg2sip/voip/ntgcalls_runtime.h: `CallBlocking`: the calling thread and the worker of ntgcalls that
-- completes the call, interleaved at each access to the state that they share. The worker writes the
-- error code and message, as ntgcalls does where there is an error, and then calls the promise; a
-- call that is rejected synchronously never gets a worker.
pub mod Invariant
pub mod Ends
mod Tests
use tg2sip_webrtc.Prelude.{
  ℕ, ◌+◌, Option, none, some, List, [], ◌∷◌, ◌++◌, Text, text, ℤ, pos, Bool, true, false,
  if◌then◌else◌, ◌==◌, int_eq,
}
use tg2sip_webrtc.Utils.{to_string}
use tg2sip_webrtc.Outside.{NtgResult, completed, rejected, errored}

-- Where the calling thread stands.
pub data Caller : Type 0 where
  issuing : Caller
  issued : (rc : ℤ) → Caller
  -- Before the lock, with it at the test of `done`, in `cv.wait`, and woken without the lock.
  entering testing asleep woken : Caller
  -- Behind `cv.wait`, with the lock.
  reading : Caller
  returned : Caller
  threw_error : (message : Text) → Caller

-- Where the worker stands: without the call, before its writes, and in the promise.
pub data Worker : Type 0 where
  absent writing : Worker
  entering setting notifying unlocking : Worker
  finished : Worker

-- Who holds `m`.
pub data Holder : Type 0 where
  nobody caller worker : Holder

-- `State`, with both threads; `freed` counts the calls of `std::free` on the message.
pub record System : Type 0 where
  pub m : Holder
  pub done : Bool
  pub error_code : ℤ
  pub error_message : Option Text
  pub freed : ℕ
  pub caller : Caller
  pub worker : Worker

abbrev pub start : System
start = record {
  m = Holder.nobody;
  done = false;
  error_code = pos 0;
  error_message = none;
  freed = 0;
  caller = Caller.issuing;
  worker = Worker.absent;
}

abbrev pub is_free : Holder → Bool
is_free Holder.nobody = true
is_free h = false

-- `issue(future)`: its code, and the worker that takes the call.
abbrev pub code_of : NtgResult → ℤ
code_of (rejected code) = code
code_of r = pos 0

abbrev worker_of : NtgResult → Worker
worker_of (rejected code) = Worker.absent
worker_of r = Worker.writing

abbrev pub rejection : ℤ → Text
rejection rc = text "ntgcalls call rejected synchronously, code " ++ to_string rc

abbrev text_of : Option Text → Text
text_of none = []
text_of (some message) = message

abbrev pub failure : ℤ → Text → Text
failure code message = text "ntgcalls error " ++ to_string code ++ text ": " ++ message

abbrev write : NtgResult → System → System
write (errored code message) s = record s { error_code = code; error_message = some message }
write r s = s

abbrev notified : Caller → Caller
notified Caller.asleep = Caller.woken
notified c = c

module _ (r : NtgResult) where
  unfoldable pub move_caller : Caller → System → System
  move_caller Caller.issuing s = record s {
    caller = Caller.issued (code_of r);
    worker = worker_of r;
  }
  move_caller (Caller.issued rc) s = record s {
    caller = if rc == pos 0 then Caller.entering else Caller.threw_error (rejection rc);
  }
  move_caller Caller.entering s =
      if is_free s.m then record s { m = Holder.caller; caller = Caller.testing } else s
  move_caller Caller.testing s =
      if s.done
      then record s { caller = Caller.reading }
      else record s { m = Holder.nobody; caller = Caller.asleep }
  move_caller Caller.woken s =
      if is_free s.m then record s { m = Holder.caller; caller = Caller.testing } else s
  move_caller Caller.reading s =
      if s.error_code == pos 0
      then record s { m = Holder.nobody; caller = Caller.returned }
      else record s {
        m = Holder.nobody;
        freed = s.freed + 1;
        caller = Caller.threw_error (failure s.error_code (text_of s.error_message));
      }
  move_caller c s = s

  unfoldable pub move_worker : Worker → System → System
  move_worker Worker.writing s = record (write r s) { worker = Worker.entering }
  move_worker Worker.entering s =
      if is_free s.m then record s { m = Holder.worker; worker = Worker.setting } else s
  move_worker Worker.setting s = record s { done = true; worker = Worker.notifying }
  move_worker Worker.notifying s = record s {
    caller = notified s.caller;
    worker = Worker.unlocking;
  }
  move_worker Worker.unlocking s = record s { m = Holder.nobody; worker = Worker.finished }
  move_worker p s = s

-- A wait may end without a notification.
unfoldable pub wake : Caller → System → System
wake Caller.asleep s = record s { caller = Caller.woken }
wake c s = s

pub data Move : Type 0 where
  caller_on worker_on spurious : Move

module _ (r : NtgResult) where
  unfoldable pub move : Move → System → System
  unfolding move_caller move_worker wake
  move caller_on s = move_caller r s.caller s
  move worker_on s = move_worker r s.worker s
  move spurious s = wake s.caller s

  unfoldable pub run : List Move → System → System
  unfolding move
  run [] s = s
  run (m ∷ ms) s = run ms (move m s)
