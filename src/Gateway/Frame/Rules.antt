-- ===== src/Gateway/Frame/Rules.antt =====
-- What no part of the gateway's own thread changes, as a postcondition with rules for the monad.
use mathlib.Core.Path.{subst}
use tg2sip_webrtc.Prelude.{◌≡◌, ◌∙◌, Text}
use tg2sip_webrtc.World.{
  World, Outcome, done, threw, aborted, undefined, Exception, M, ◌>>=◌, catching, noexcept,
}
use tg2sip_webrtc.Gateway.Context.{Context, Event, Action}
use tg2sip_webrtc.Gateway.Machine.{◌then_do◌}

-- The queues that TDLib's and PJSIP's threads fill.
abbrev pub SameQueues : World → World → Type 0
SameQueues w w' = (w'.tg_events ≡ w.tg_events) × (w'.sip_events ≡ w.sip_events)

-- However a run from `w` ends, the queues are as before; if it returns, the result is in `P`.
abbrev pub Ends {ℓ} : {A : Type ℓ} → (A → Type 0) → World → Outcome A → Type 0
Ends P w (done a w') = P a × SameQueues w w'
Ends P w (threw e w') = SameQueues w w'
Ends P w (aborted e) = Unit {0}
Ends P w undefined = Unit {0}

Ends-trans {ℓ} :
    {A : Type ℓ} (P : A → Type 0) (u v : World) (r : Outcome A)
    → SameQueues u v
    → Ends P v r
    → Ends P u r
Ends-trans P u v (done a w) h k = (k.0, (k.1.0 ∙ h.0, k.1.1 ∙ h.1))
Ends-trans P u v (threw e w) h k = (k.0 ∙ h.0, k.1 ∙ h.1)
Ends-trans P u v (aborted e) h k = tt
Ends-trans P u v undefined h k = tt

pub Ends-bind {ℓ κ} :
    {A : Type ℓ} {B : Type κ} (P : A → Type 0) (Q : B → Type 0) (m : M A) (f : A → M B) (w : World)
    → Ends P w (m w)
    → ((a : A) (v : World) → P a → Ends Q v (f a v))
    → Ends Q w ((m >>= f) w)
Ends-bind {A} {B} P Q m f w h k = go (m w) h
  where
    go :
        (r : Outcome A)
        → Ends P w r
        → Ends Q w (elim r as (λ _. Outcome B) [
          | done a w' ↦ f a w'
          | threw e w' ↦ threw e w'
          | aborted e ↦ aborted e
          | undefined ↦ undefined
        ])
    go (done a v) q = Ends-trans Q w v (f a v) q.1 (k a v q.0)
    go (threw e v) q = q
    go (aborted e) q = tt
    go undefined q = tt

pub Ends-catching {ℓ} :
    {A : Type ℓ} (P : A → Type 0) (m : M A) (handler : Exception → M A) (w : World)
    → Ends P w (m w)
    → ((e : Exception) (v : World) → Ends P v (handler e v))
    → Ends P w (catching m handler w)
Ends-catching {A} P m handler w h k = go (m w) h
  where
    go :
        (r : Outcome A)
        → Ends P w r
        → Ends P w (elim r as (λ _. Outcome A) [
          | done a w' ↦ done a w'
          | threw e w' ↦ handler e w'
          | aborted e ↦ aborted e
          | undefined ↦ undefined
        ])
    go (done a v) q = q
    go (threw e v) q = Ends-trans P w v (handler e v) q (k e v)
    go (aborted e) q = tt
    go undefined q = tt

pub Ends-noexcept {ℓ} :
    {A : Type ℓ} (P : A → Type 0) (m : M A) (w : World) → Ends P w (m w) → Ends P w (noexcept m w)
Ends-noexcept {A} P m w h = go (m w) h
  where
    go :
        (r : Outcome A)
        → Ends P w r
        → Ends P w (elim r as (λ _. Outcome A) [
          | done a w' ↦ done a w'
          | threw e w' ↦ aborted e
          | aborted e ↦ aborted e
          | undefined ↦ undefined
        ])
    go (done a v) q = q
    go (threw e v) q = tt
    go (aborted e) q = tt
    go undefined q = tt

-- With any result, and with a context that keeps its id.
abbrev pub Quiet {ℓ} : {A : Type ℓ} → World → Outcome A → Type 0
Quiet = Ends (λ _. Unit {0})

abbrev pub Framed : Text → World → Outcome Context → Type 0
Framed id = Ends (λ ctx. ctx.id ≡ id)

-- An action that keeps its context's id and leaves the queues alone.
abbrev pub FramedAction : Action → Type 0
FramedAction a = (e : Event) (ctx : Context) (w : World) → Framed ctx.id w (a e ctx w)

pub Framed-then :
    (id : Text) (m : M Context) (f : Context → M Context) (w : World)
    → Framed id w (m w)
    → ((ctx : Context) (v : World) → Framed ctx.id v (f ctx v))
    → Framed id w ((m >>= f) w)
Framed-then id m f w h k =
    Ends-bind (λ c. c.id ≡ id) (λ c. c.id ≡ id) m f w h
      λ c v same. subst (λ i. Framed i v (f c v)) same (k c v)

pub then_do-Framed : (a b : Action) → FramedAction a → FramedAction b → FramedAction (a then_do b)
then_do-Framed a b h k e ctx w = Framed-then ctx.id (a e ctx) (b e) w (h e ctx w) (k e)
