-- ===== src/Voip/Runtime.antt =====
-- tg2sip/voip/ntgcalls_runtime.h and ntgcalls_runtime.cpp (`NtgCallsRuntime`) as threads that
-- interleave: the table of sinks under its mutex, and the completion of the calls of ntgcalls.
pub mod Dispatch
pub mod Blocking
pub mod Detached
