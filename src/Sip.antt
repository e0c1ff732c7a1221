-- ===== src/Sip.antt =====
-- tg2sip/sip.h and sip.cpp: `sip::Client`, which owns the PJSIP calls by their call id, and the
-- handlers through which PJSIP's threads report to the gateway.
pub mod Calls
pub mod Endpoint
mod Tests
use tg2sip_webrtc.Prelude.{
  ℕ, zero, suc, ◌+◌, Option, none, some, List, [], ◌∷◌, Text, ℤ, pos, negsuc, Bool, true, false,
  ◌&&◌, text, if◌then◌else◌, lookup, emplace, erase, int_eq,
}
use tg2sip_webrtc.Outside.{
  Outside, InvState, MediaInfo, CallOpParam, PjResult, returned, id, state, flag, name, media,
  make_call, get_id, answer, hangup, dial_dtmf, get_media, get_state, has_media, local_user,
  delete_call, start_transmit_to_input, start_transmit_from_output,
}
use tg2sip_webrtc.OptionalQueue
use tg2sip_webrtc.World.{
  World, SipCall, SipEvent, incoming_call, call_state_update, call_media_state_update, M, ◌>>=◌,
  ◌>>◌, pure, throw, no_meaning, modify, ask_pj, note_pj, runtime_error, done, threw,
}

-- `PJSUA_INVALID_ID`
abbrev pub invalid_id : ℤ
invalid_id = negsuc 0

abbrev emit_sip : SipEvent → M (Unit {0})
emit_sip e = modify λ w. record w { sip_events = OptionalQueue.emplace (some e) w.sip_events }

-- The first medium that is audio and there; a null pointer if it is no `pj::AudioMedia`.
unfoldable pub audio_media_from : ℕ → List MediaInfo → Option ℕ
audio_media_from i [] = none
audio_media_from i (m ∷ ms) =
    let rest = audio_media_from (i + 1) ms in
    if m.is_audio && m.is_there then (if m.is_audio_media then some i else none) else rest

-- A result of the kind that the PJSIP function returns.
abbrev as_id : PjResult → M ℤ
as_id (id i) = pure i
as_id r = no_meaning

abbrev as_media : PjResult → M (List MediaInfo)
as_media (media ms) = pure ms
as_media r = no_meaning

abbrev as_name : PjResult → M Text
as_name (name n) = pure n
as_name r = no_meaning

abbrev as_state : PjResult → M InvState
as_state (state s) = pure s
as_state r = no_meaning

abbrev as_flag : PjResult → M Bool
as_flag (flag b) = pure b
as_flag r = no_meaning

-- The entry of a call id, or `std::runtime_error`.
abbrev found_or_throw : ℤ → M SipCall
found_or_throw call_id w = elim (lookup call_id w.calls) [
  | some call ↦ done call w
  | none ↦ threw (runtime_error (text "CALL_NOT_FOUND")) w
]

-- A new `sip::Call` object.
abbrev new_object : M ℕ
new_object w = done w.objects (record w { objects = w.objects + 1 })

-- `calls.emplace`
abbrev keep_call : ℤ → SipCall → M (Unit {0})
keep_call call_id call = modify λ w. record w { calls = emplace call_id call w.calls }

abbrev is_kept : ℤ → M Bool
is_kept call_id w = elim (lookup call_id w.calls) [ none ↦ done false w | some call ↦ done true w ]

module _ (o : Outside) where
  -- `Call::audio_media`
  unfoldable pub audio_media : SipCall → M (Option ℕ)
  unfolding audio_media_from
  audio_media call = do
    r ← ask_pj o (get_media call.object)
    ms ← as_media r
    pure (audio_media_from 0 ms)

  -- The id is known, and the call kept, only after `makeCall` has returned. An object that the table
  -- does not take goes at the end.
  unfoldable pub dial : Text → CallOpParam → M ℤ
  dial uri prm = do
    object ← new_object
    r ← ask_pj o (make_call object uri prm)
    i ← ask_pj o (get_id object)
    sip_id ← as_id i
    dropped ← is_kept sip_id
    keep_call sip_id (record { object = object; local_user = [] })
    if dropped then note_pj (delete_call object) else pure tt
    pure sip_id

  unfoldable pub answer_call : ℤ → CallOpParam → M (Unit {0})
  answer_call call_id prm = do
    call ← found_or_throw call_id
    r ← ask_pj o (answer call.object prm)
    pure tt

  -- Nothing happens for a call that is not kept; the entry goes only if PJSIP's hangup returns.
  unfoldable pub hang_up : ℤ → CallOpParam → M (Unit {0})
  hang_up call_id prm w = elim (lookup call_id w.calls) [
    | none ↦ done tt w
    | some call ↦
        (ask_pj o (hangup call.object prm) >>= λ r.
        modify λ v. record v { calls = erase call_id v.calls })
          w
  ]

  -- From the audio medium on.
  unfoldable pub connect_audio : SipCall → Option ℕ → M (Unit {0})
  connect_audio call none = throw (runtime_error (text "SIP_MEDIA_NOT_READY"))
  connect_audio call (some m) = do
    a ← ask_pj o (start_transmit_to_input call.object m)
    b ← ask_pj o (start_transmit_from_output call.object m)
    pure tt

  unfoldable pub bridge_audio : ℤ → M (Unit {0})
  unfolding connect_audio audio_media
  bridge_audio call_id = do
    call ← found_or_throw call_id
    sip_audio ← audio_media call
    connect_audio call sip_audio

  unfoldable pub dial_digits : ℤ → Text → M (Unit {0})
  dial_digits call_id digits = do
    call ← found_or_throw call_id
    r ← ask_pj o (dial_dtmf call.object digits)
    pure tt

  -- The handler of `onIncomingCall`, on a PJSIP thread: `call_id` is that of the new call. An object
  -- that the table does not take goes at the end.
  unfoldable pub on_incoming_call : ℤ → M (Unit {0})
  on_incoming_call call_id = do
    object ← new_object
    r ← ask_pj o (local_user object)
    n ← as_name r
    dropped ← is_kept call_id
    keep_call call_id (record { object = object; local_user = n })
    emit_sip (incoming_call call_id n)
    if dropped then note_pj (delete_call object) else pure tt

  -- The handlers of `set_default_handlers`. `alive` tells whether the weak pointer still locks.
  unfoldable pub on_call_state : ℕ → Bool → M (Unit {0})
  on_call_state object false = pure tt
  on_call_state object true = do
    i ← ask_pj o (get_id object)
    sip_id ← as_id i
    s ← ask_pj o (get_state object)
    st ← as_state s
    emit_sip (call_state_update sip_id st)

  unfoldable on_call_media_state : ℕ → Bool → M (Unit {0})
  on_call_media_state object false = pure tt
  on_call_media_state object true = do
    i ← ask_pj o (get_id object)
    sip_id ← as_id i
    m ← ask_pj o (has_media object)
    b ← as_flag m
    emit_sip (call_media_state_update sip_id b)
