-- ===== src/World.antt =====
-- The state that the parts of the process share (tg2sip/gateway.h, sip.h, voip/ntgcalls_runtime.h),
-- and the way a call may end: with a value, with a C++ exception, or without a defined meaning.
use tg2sip_webrtc.Prelude.{ℕ, some, List, ◌∷◌, Text, ℤ, Bool, ◌≡◌, refl, ◌∙◌}
use tg2sip_webrtc.Outside.{
  Outside, Request, td, pj, ntg, clock, TdFunction, TdObject, PjFunction, PjResult, failed,
  NtgFunction, NtgResult, CallOpParam, InvState, UpdateCall, UpdateNewMessage,
  UpdateNewCallSignalingData,
}
use tg2sip_webrtc.OptionalQueue.{OptionalQueue}
use tg2sip_webrtc.OptionalQueue

-- `sip::events::Event`
pub data SipEvent : Type 0 where
  incoming_call : (id : ℤ) (extension : Text) → SipEvent
  call_state_update : (id : ℤ) (state : InvState) → SipEvent
  call_media_state_update : (id : ℤ) (has_media : Bool) → SipEvent

-- `state_machine::events::Event`
pub data InternalEvent : Type 0 where
  internal_error : (ctx_id : Text) (prm : CallOpParam) → InternalEvent
  signaling_data_emitted : (ctx_id : Text) (bytes : List ℕ) → InternalEvent

-- `tg::Client::Object` as it stands in the queue; `other_update` is any other TDLib object.
pub data TgUpdate : Type 0 where
  call : UpdateCall → TgUpdate
  new_message : UpdateNewMessage → TgUpdate
  new_call_signaling_data : UpdateNewCallSignalingData → TgUpdate
  other_update : TgUpdate

-- `sip::Call`: the object, by the order in which it was made, and the user it was called as.
pub record SipCall : Type 0 where
  pub object : ℕ
  pub local_user : Text

pub record World : Type 0 where
  -- Requests made so far, the newest first.
  pub trace : List Request
  -- `sip::Call` objects made so far.
  pub objects : ℕ
  -- `sip::Client::calls`
  pub calls : List (ℤ × SipCall)
  pub sip_events : OptionalQueue SipEvent
  pub tg_events : OptionalQueue TgUpdate
  -- `Gateway::internal_events_`, `cache_` and `block_until` (nanoseconds).
  pub internal_events : OptionalQueue InternalEvent
  pub username_cache : List (Text × ℤ)
  pub phone_cache : List (Text × ℤ)
  pub block_until : ℕ
  -- `NtgCallsRuntime::sinks_`; the sink of a call is named by the context that made it.
  pub sinks : List (ℤ × Text)

pub data Exception : Type 0 where
  -- `pj::Error` with its reason, and `std::runtime_error` with its message.
  pj_error runtime_error : Text → Exception
  -- `std::out_of_range`
  range_error : Exception

pub data Outcome {ℓ} (A : Type ℓ) : Type ℓ where
  done : A → World → Outcome A
  threw : Exception → World → Outcome A
  -- `std::terminate`, of an exception that a `noexcept` function or a destructor lets out. Whether
  -- the stack is unwound before is left to the compiler, so that no world is given.
  aborted : Exception → Outcome A
  -- Undefined behaviour of C++, such as a cast to the wrong type.
  undefined : Outcome A

abbrev pub M {ℓ} : Type ℓ → Type ℓ
M A = World → Outcome A

abbrev pub pure {ℓ} : {A : Type ℓ} → A → M A
pure a w = done a w

infixl 5 ◌>>=◌ ◌>>◌
abbrev pub ◌>>=◌ {ℓ κ} : {A : Type ℓ} {B : Type κ} → M A → (A → M B) → M B
◌>>=◌ m f w = elim (m w) [
  | done a w' ↦ f a w'
  | threw e w' ↦ threw e w'
  | aborted e ↦ aborted e
  | undefined ↦ undefined
]

abbrev pub ◌>>◌ {ℓ} : {B : Type ℓ} → M (Unit {0}) → M B → M B
m >> k = m >>= λ _. k

abbrev pub throw {ℓ} : {A : Type ℓ} → Exception → M A
throw e w = threw e w

abbrev pub no_meaning {ℓ} : {A : Type ℓ} → M A
no_meaning w = undefined

-- `try { m } catch { … }`
abbrev pub catching {ℓ} : {A : Type ℓ} → M A → (Exception → M A) → M A
catching m handler w = elim (m w) [
  | done a w' ↦ done a w'
  | threw e w' ↦ handler e w'
  | aborted e ↦ aborted e
  | undefined ↦ undefined
]

-- A `noexcept` function.
abbrev pub noexcept {ℓ} : {A : Type ℓ} → M A → M A
noexcept m w = elim (m w) [
  | done a w' ↦ done a w'
  | threw e w' ↦ aborted e
  | aborted e ↦ aborted e
  | undefined ↦ undefined
]

abbrev pub modify : (World → World) → M (Unit {0})
modify f w = done tt (f w)

-- `internal_events.emplace`
abbrev pub emit : InternalEvent → M (Unit {0})
emit e = modify λ w. record w { internal_events = OptionalQueue.emplace (some e) w.internal_events }

abbrev pub noted : Request → World → World
noted r w = record w { trace = r ∷ w.trace }

-- A PJSIP function of C whose result nobody reads.
abbrev pub note_pj : PjFunction → M (Unit {0})
note_pj f w = done tt (noted (pj f) w)

module _ (o : Outside) where
  -- `tg_client.send_query_async(f).get()`
  abbrev pub ask_td : TdFunction → M TdObject
  ask_td f w = done (o.td_answer w.trace f) (noted (td f) w)

  -- A PJSIP call; `pj::Error` is thrown where it fails.
  abbrev pub ask_pj : PjFunction → M PjResult
  ask_pj f w = elim (o.pj_answer w.trace f) [
    | failed reason ↦ threw (pj_error reason) (noted (pj f) w)
    | r ↦ done r (noted (pj f) w)
  ]

  abbrev pub ask_ntg : NtgFunction → M NtgResult
  ask_ntg f w = done (o.ntg_answer w.trace f) (noted (ntg f) w)

  abbrev pub now : M ℕ
  now w = done (o.clock_answer w.trace) (noted clock w)

-- Inversion of a bind that returns.
pub >>=-eq-done {ℓ κ} :
    {A : Type ℓ} {B : Type κ} (m : M A) (f : A → M B) (w : World) {b : B} {w' : World}
    → (m >>= f) w ≡ done b w'
    → (a : A) × (v : World) × (m w ≡ done a v) × (f a v ≡ done b w')
>>=-eq-done {A} m f w {b} {w'} e = invert (m w) refl
  where
    invert :
        (r : Outcome A) → m w ≡ r → (a : A) × (v : World) × (m w ≡ done a v) × (f a v ≡ done b w')
    invert (done a v) h = (a, v, h, cc (rw (h, ◌>>=◌) at e))
    invert (threw x v) h = cc (rw (h, ◌>>=◌) at e)
    invert (aborted x) h = cc (rw (h, ◌>>=◌) at e)
    invert undefined h = cc (rw (h, ◌>>=◌) at e)

-- What a `noexcept` function returns.
pub noexcept-eq-done {ℓ} :
    {A : Type ℓ} (m : M A) (w : World) {a : A} {w' : World}
    → noexcept m w ≡ done a w'
    → m w ≡ done a w'
noexcept-eq-done {A} m w {a} {w'} e = invert (m w) refl
  where
    invert : (r : Outcome A) → m w ≡ r → m w ≡ done a w'
    invert (done b v) h = h ∙ cc (rw (h, noexcept) at e)
    invert (threw x v) h = cc (rw (h, noexcept) at e)
    invert (aborted x) h = cc (rw (h, noexcept) at e)
    invert undefined h = cc (rw (h, noexcept) at e)

pub noexcept-done {ℓ} :
    {A : Type ℓ} (m : M A) (w : World) {a : A} {w' : World}
    → m w ≡ done a w'
    → noexcept m w ≡ done a w'
noexcept-done m w h = rw (h, noexcept) refl
