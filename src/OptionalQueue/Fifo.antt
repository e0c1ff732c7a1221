-- ===== src/OptionalQueue/Fifo.antt =====
-- tg2sip/queue.h: what goes in and what comes out, for any sequence of the threads' calls.
use tg2sip_webrtc.Prelude.{
  ◌≡◌, refl, ap, sym, ◌∙◌, List, [], ◌∷◌, ◌++◌, Option, none, some, append_assoc, append-nil,
}
use tg2sip_webrtc.OptionalQueue.{OptionalQueue, emplace, pop}

-- One call, by any thread.
pub data Call {ℓ} (T : Type ℓ) : Type ℓ where
  emplaces : T → Call T
  pops : Call T

module _ {ℓ} {T : Type ℓ} where
  -- The values that the calls emplace.
  pub emplaced : List (Call T) → List T
  emplaced [] = []
  emplaced (emplaces t ∷ calls) = t ∷ emplaced calls
  emplaced (pops ∷ calls) = emplaced calls

  -- What the pops return, and the queue at the end.
  pub run : OptionalQueue T → List (Call T) → List (Option T) × OptionalQueue T
  run q [] = ([], q)
  run q (emplaces t ∷ calls) = run (emplace (some t) q) calls
  run q (pops ∷ calls) = let rest = run (pop q).1 calls in ((pop q).0 ∷ rest.0, rest.1)

  pub values : List (Option T) → List T
  values [] = []
  values (none ∷ q) = values q
  values (some t ∷ q) = t ∷ values q

  values-append : (p q : List (Option T)) → values (p ++ q) ≡ values p ++ values q
  unfolding values
  values-append [] q = refl
  values-append (none ∷ p) q = values-append p q
  values-append (some t ∷ p) q = ap (λ ts. t ∷ ts) (values-append p q)

  -- For every sequence of calls: the values popped, followed by those still in the queue, are the
  -- values first in the queue followed by those emplaced, in that order.
  pub values-run :
      (calls : List (Call T)) (q : OptionalQueue T)
      → values (run q calls).0 ++ values (run q calls).1 ≡ values q ++ emplaced calls
  unfolding run values emplaced emplace pop
  values-run [] q = sym (append-nil (values q))
  values-run (emplaces t ∷ calls) q =
      values-run calls (q ++ some t ∷ [])
      ∙ rw (values-append q (some t ∷ [])) (append_assoc (values q) (t ∷ []) (emplaced calls))
  values-run (pops ∷ calls) [] = values-run calls []
  values-run (pops ∷ calls) (none ∷ q) = values-run calls q
  values-run (pops ∷ calls) (some t ∷ q) = ap (λ ts. t ∷ ts) (values-run calls q)
