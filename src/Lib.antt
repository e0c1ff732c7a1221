-- ===== src/Lib.antt =====
-- A model of tg2sip-webrtc, a gateway between Telegram calls and SIP.
--
-- A call has two sides: TDLib with ntgcalls for Telegram, and PJSIP for SIP. The gateway keeps one
-- bridge for each call, a state machine with a context, and one thread that takes events out of
-- three queues: from TDLib, from PJSIP and from itself.
--
-- Gateway (tg2sip/gateway.h, gateway.cpp). Context has `Context` and the events; Guards the
-- structs of `state_machine::guards`; Actions those of `state_machine::actions` (`CleanUp` is
-- `clean_up`, `DialSip` is `dial_sip`, and so on) with what they compute in Values, and DialTg the
-- action `DialTg` with its three ways of dialling and `parse_error`. Machine has the transition
-- tables `from_tg`, `from_sip` and `StateMachine` row by row. Process has `search_call`, the
-- overloads of `process_event` (`process_call`, `process_sip`, `process_message`,
-- `process_internal`, `process_signaling`) and one round of the loop of `Gateway::start` (`tick`);
-- Cache has `load_cache`; Schedule the loop, with the events that other threads emplace between
-- its rounds. About them: CleanUp, Transitions, Progress, Live, Extension, Flood, Contacts,
-- Uncaught, Throws (which C++ exceptions come out of an action, and which end the process in the state
-- machine and in the loop), Stray, Bridging (whole calls, from their first event to the bridged
-- audio), Frame (what no action changes), Rows (what holds of every row), Numbers (the ids of the
-- contexts) and Schedule's Rounds and Taken. Sml is the interface to Boost.SML
-- (include/boost/sml.hpp): the rows, and what `process_event` does with them, as laws that every `Sml`
-- has; as no row takes an exception, it calls the rows in a `noexcept` function. Firing draws what the
-- other files use from the laws.
-- Sip (tg2sip/sip.h, sip.cpp): `sip::Client` with its table of calls, and PJSIP's handlers; its
-- Endpoint has the start of PJSIP, the account and `user_from_uri`.
-- Voip.Controller (tg2sip/voip/controller.h, controller.cpp, ntgcalls_runtime.h, .cpp):
-- `TgCallsController` and the table of sinks; its Audio has the callbacks of
-- tg2sip/voip/audio_bridge.cpp that move samples, and the frames of ntgcalls. Voip.MediaPorts has
-- the ports' constructors and destructors, Voip.Ports their start and stop and the other two callbacks.
-- Voip.Runtime (tg2sip/voip/ntgcalls_runtime.h, .cpp) has `NtgCallsRuntime` as threads that interleave
-- at each access: Dispatch the table of sinks under its mutex, with any number of controllers and of
-- callbacks, Blocking `CallBlocking` and Detached `CallDetached`, each with the worker of ntgcalls.
-- RingBuffer (tg2sip/voip/ring_buffer.h): `push` and `pop` with `size_t` arithmetic modulo 2^64;
-- its Spsc has one producer and one consumer that interleave at each access.
-- Tg (tg2sip/tg.h, tg.cpp): `tg::Client`: its start parameters, queries, answers, updates.
-- GenDb (tg2sip/gen_db.cpp): `TDClient`, the interactive sign-on: a program of its own, with the same
-- settings; the words typed at the console and the responses of TDLib are lists. Program is its `main`.
-- Main (tg2sip/main.cpp) and Logging (tg2sip/logging.cpp): the start of the process.
-- Settings (tg2sip/settings.h, settings.cpp), Utils (tg2sip/utils.cpp) and OptionalQueue
-- (tg2sip/queue.h).
-- Outside has the values exchanged with TDLib, PJSIP and ntgcalls, and World the state that the
-- parts share: the trace of requests, the queues, the caches and the tables.
--
-- Conventions. Code that calls TDLib, PJSIP or ntgcalls runs in `M`: it takes a world and returns a
-- value (`done`), a C++ exception (`threw`), ends the process by `std::terminate` (`aborted`: an
-- exception out of a destructor or of a `noexcept` function), or has no defined meaning (`undefined`:
-- a wrong cast, a null pointer, a read behind the end of a key, a failed assertion). The answers come
-- from a parameter, `Outside`, which may answer every request by all the requests made before; the
-- theorems hold for each. Each run of the gateway's thread is taken without interruption; what other threads do is an event in a
-- queue, or a function of its own (the PJSIP handlers, ntgcalls' callbacks, the audio ports). The
-- clock counts nanoseconds without wrapping. Loops over lists are structural recursion. The one fuel
-- is that of `decimal`, the digits of a printed number: 20, enough below 10^20. Numbers of fixed
-- width wrap where the source casts or adds them.
--
-- Interleavings. Where two threads share state, each move of a schedule, a list, is one access of one
-- thread, and a thread that finds a mutex taken stays where it is.
--
-- Not modelled: the text of log messages, the console prompts of tg2sip/gen_db.cpp, the wait for the
-- next frame or round, sleeping and signals, which hold no state that the modelled parts read. The
-- handlers of `tg::Client` and the calls of `sip::Client` are maps without a lock; schedules in which
-- two threads access one of them at the same moment have no meaning in C++ and are not modelled: each
-- run of a handler is one step there. Boost.SML and INIReader are copies of other
-- libraries: they are parameters.
pub mod Prelude
pub mod RingBuffer
pub mod Outside
pub mod Utils
pub mod Settings
pub mod OptionalQueue
pub mod World
pub mod Sip
pub mod Voip
pub mod Gateway
pub mod GenDb
pub mod Logging
pub mod Main
pub mod Examples
pub mod Tg
