-- ===== src/Gateway/Throws.antt =====
-- tg2sip/gateway.cpp: which C++ exceptions come out of the gateway's actions, and which end the
-- process in a bridge's state machine and in the loop, as postconditions with rules for the monad.
pub mod Steps
pub mod Dial
pub mod Escape
pub mod Loop
pub mod Voip
mod Tests
use tg2sip_webrtc.World.{
  World, Outcome, done, threw, aborted, undefined, Exception, pj_error, runtime_error, range_error,
  M, ◌>>=◌, catching, noexcept,
}
use tg2sip_webrtc.Gateway.Context.{Context, Event, Action}
use tg2sip_webrtc.Gateway.Machine.{◌then_do◌}

-- An exception that comes out, or that ends the process, satisfies `X`.
abbrev pub Throws {ℓ} : {A : Type ℓ} → (Exception → Type 0) → Outcome A → Type 0
Throws X (done a w) = Unit {0}
Throws X (threw e w) = X e
Throws X (aborted e) = X e
Throws X undefined = Unit {0}

abbrev pub Never : Exception → Type 0
Never e = ⊥

abbrev pub IsRuntimeError : Exception → Type 0
IsRuntimeError (pj_error reason) = ⊥
IsRuntimeError (runtime_error message) = Unit {0}
IsRuntimeError range_error = ⊥

-- What `TgCallsController` throws when it is made and started.
abbrev pub NotRangeError : Exception → Type 0
NotRangeError (pj_error reason) = Unit {0}
NotRangeError (runtime_error message) = Unit {0}
NotRangeError range_error = ⊥

abbrev pub IsRangeError : Exception → Type 0
IsRangeError (pj_error reason) = ⊥
IsRangeError (runtime_error message) = ⊥
IsRangeError range_error = Unit {0}

pub Throws-bind {ℓ κ} :
    {A : Type ℓ} {B : Type κ} (X : Exception → Type 0) (m : M A) (f : A → M B) (w : World)
    → Throws X (m w)
    → ((a : A) (v : World) → Throws X (f a v))
    → Throws X ((m >>= f) w)
Throws-bind {A} {B} X m f w h k = go (m w) h
  where
    go :
        (r : Outcome A)
        → Throws X r
        → Throws X (elim r as (λ _. Outcome B) [
          | done a w' ↦ f a w'
          | threw e w' ↦ threw e w'
          | aborted e ↦ aborted e
          | undefined ↦ undefined
        ])
    go (done a v) q = k a v
    go (threw e v) q = q
    go (aborted e) q = q
    go undefined q = tt

pub Throws-catching {ℓ} :
    {A : Type ℓ} (X Y : Exception → Type 0) (m : M A) (handler : Exception → M A) (w : World)
    → ((e : Exception) → Y e → X e)
    → Throws Y (m w)
    → ((e : Exception) (v : World) → Y e → Throws X (handler e v))
    → Throws X (catching m handler w)
Throws-catching {A} X Y m handler w up h k = go (m w) h
  where
    go :
        (r : Outcome A)
        → Throws Y r
        → Throws X (elim r as (λ _. Outcome A) [
          | done a w' ↦ done a w'
          | threw e w' ↦ handler e w'
          | aborted e ↦ aborted e
          | undefined ↦ undefined
        ])
    go (done a v) q = tt
    go (threw e v) q = k e v q
    go (aborted e) q = up e q
    go undefined q = tt

pub Throws-noexcept {ℓ} :
    {A : Type ℓ} (X : Exception → Type 0) (m : M A) (w : World)
    → Throws X (m w)
    → Throws X (noexcept m w)
Throws-noexcept {A} X m w h = go (m w) h
  where
    go :
        (r : Outcome A)
        → Throws X r
        → Throws X (elim r as (λ _. Outcome A) [
          | done a w' ↦ done a w'
          | threw e w' ↦ aborted e
          | aborted e ↦ aborted e
          | undefined ↦ undefined
        ])
    go (done a v) q = tt
    go (threw e v) q = q
    go (aborted e) q = q
    go undefined q = tt

pub Throws-weaken {ℓ} :
    {A : Type ℓ} (X Y : Exception → Type 0) (r : Outcome A)
    → ((e : Exception) → X e → Y e)
    → Throws X r
    → Throws Y r
Throws-weaken X Y (done a w) h t = tt
Throws-weaken X Y (threw e w) h t = h e t
Throws-weaken X Y (aborted e) h t = h e t
Throws-weaken X Y undefined h t = tt

-- Whatever the event, the context and the world.
abbrev pub ThrowingAction : (Exception → Type 0) → Action → Type 0
ThrowingAction X a = (e : Event) (ctx : Context) (w : World) → Throws X (a e ctx w)

pub then_do-Throws :
    (X : Exception → Type 0) (a b : Action)
    → ThrowingAction X a
    → ThrowingAction X b
    → ThrowingAction X (a then_do b)
then_do-Throws X a b h k e ctx w = Throws-bind X (a e ctx) (b e) w (h e ctx w) (k e)

-- Nothing is thrown, and an exception that ends the process satisfies `X`.
abbrev pub Contained {ℓ} : {A : Type ℓ} → (Exception → Type 0) → Outcome A → Type 0
Contained X (done a w) = Unit {0}
Contained X (threw e w) = ⊥
Contained X (aborted e) = X e
Contained X undefined = Unit {0}

pub Contained-bind {ℓ κ} :
    {A : Type ℓ} {B : Type κ} (X : Exception → Type 0) (m : M A) (f : A → M B) (w : World)
    → Contained X (m w)
    → ((a : A) (v : World) → Contained X (f a v))
    → Contained X ((m >>= f) w)
Contained-bind {A} {B} X m f w h k = go (m w) h
  where
    go :
        (r : Outcome A)
        → Contained X r
        → Contained X (elim r as (λ _. Outcome B) [
          | done a w' ↦ f a w'
          | threw e w' ↦ threw e w'
          | aborted e ↦ aborted e
          | undefined ↦ undefined
        ])
    go (done a v) q = k a v
    go (threw e v) q = q
    go (aborted e) q = q
    go undefined q = tt

pub Contained-noexcept {ℓ} :
    {A : Type ℓ} (X : Exception → Type 0) (m : M A) (w : World)
    → Throws X (m w)
    → Contained X (noexcept m w)
Contained-noexcept {A} X m w h = go (m w) h
  where
    go :
        (r : Outcome A)
        → Throws X r
        → Contained X (elim r as (λ _. Outcome A) [
          | done a w' ↦ done a w'
          | threw e w' ↦ aborted e
          | aborted e ↦ aborted e
          | undefined ↦ undefined
        ])
    go (done a v) q = tt
    go (threw e v) q = q
    go (aborted e) q = q
    go undefined q = tt

pub Contained-weaken {ℓ} :
    {A : Type ℓ} (X Y : Exception → Type 0) (r : Outcome A)
    → ((e : Exception) → X e → Y e)
    → Contained X r
    → Contained Y r
Contained-weaken X Y (done a w) h t = tt
Contained-weaken X Y (threw e w) h t = t
Contained-weaken X Y (aborted e) h t = h e t
Contained-weaken X Y undefined h t = tt
