-- ===== src/Sip/Calls.antt =====
-- tg2sip/sip.cpp: what `sip::Client` does to its table of calls.
use tg2sip_webrtc.Prelude.{
  ◌≡◌, none, some, [], Text, ℤ, if◌then◌else◌, lookup, or_else, lookup-emplace, lookup-erase, ◌==◌,
  ==_iff, int_eq, arith,
}
use tg2sip_webrtc.Outside.{Outside, CallOpParam, name, local_user, answer}
use tg2sip_webrtc.World.{SipCall, ask_pj, ◌>>=◌, pure, World, done, incoming_call}
use tg2sip_webrtc.OptionalQueue
use tg2sip_webrtc.Sip.{dial, answer_call, hang_up, on_incoming_call}

module _ (o : Outside) where
  -- `Dial` that returns: its id is kept for the new object, unless that id was kept already, and
  -- every other entry stays.
  pub calls-dial :
      (uri : Text) (prm : CallOpParam) (w : World) {i : ℤ} {w' : World} (j : ℤ)
      → dial o uri prm w ≡ done i w'
      → lookup j w'.calls ≡ (
          if i == j
          then or_else (lookup j w.calls) (some (record { object = w.objects; local_user = [] }))
          else lookup j w.calls)
  unfolding dial
  calls-dial uri prm w {i} {w'} j e =
      ground (arith, lookup-emplace i j (record { object = w.objects; local_user = [] }) w.calls)

  -- When `Hangup` returns, the entry of its call id is gone and every other stays.
  calls-hang_up :
      (call_id : ℤ) (prm : CallOpParam) (w : World) {w' : World} (j : ℤ)
      → hang_up o call_id prm w ≡ done tt w'
      → lookup j w'.calls ≡ (if call_id == j then none else lookup j w.calls)
  unfolding hang_up
  calls-hang_up call_id prm w {w'} j e =
      ground (arith, lookup-erase call_id j w.calls, ==_iff call_id j)

  -- The user part that PJSIP gives for the next call object.
  abbrev called_user : World → Text
  called_user w = elim (o.pj_answer w.trace (local_user w.objects)) [ name n ↦ n | _ ↦ [] ]

  -- An incoming call whose handler returns: its id is kept for the new object, unless that id was
  -- kept already, for its old object, and every other entry stays; and the gateway is told of the
  -- id and the user called.
  calls-on_incoming_call :
      (i : ℤ) (w : World) {w' : World} (j : ℤ)
      → on_incoming_call o i w ≡ done tt w'
      → (lookup j w'.calls ≡ (
          if i == j
          then or_else
              (lookup j w.calls)
              (some (record { object = w.objects; local_user = called_user w }))
          else lookup j w.calls))
        × (w'.sip_events
            ≡ OptionalQueue.emplace (some (incoming_call i (called_user w))) w.sip_events)
  unfolding on_incoming_call
  calls-on_incoming_call i w {w'} j e = ground (
    arith,
    lookup-emplace i j (record { object = w.objects; local_user = called_user w }) w.calls,
  )

  answer_call-found :
      (i : ℤ) (call : SipCall) (prm : CallOpParam) (w : World)
      → lookup i w.calls ≡ some call
      → answer_call o i prm w ≡ (ask_pj o (answer call.object prm) >>= λ r. pure tt) w
  unfolding answer_call
  answer_call-found i call prm w found = ground arith

  -- An incoming call whose id is kept already, for an older object: once its handler has returned,
  -- answering that id makes one request of PJSIP, and it is of the older object.
  pub answer_call-kept :
      (i : ℤ) (old : SipCall) (prm : CallOpParam) (w : World) {w' : World}
      → lookup i w.calls ≡ some old
      → on_incoming_call o i w ≡ done tt w'
      → answer_call o i prm w' ≡ (ask_pj o (answer old.object prm) >>= λ r. pure tt) w'
  answer_call-kept i old prm w {w'} kept e =
      answer_call-found i old prm w'
        (ground (arith, (calls-on_incoming_call i w i e).0, kept, ==_iff i i))
