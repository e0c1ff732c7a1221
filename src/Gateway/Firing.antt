-- ===== src/Gateway/Firing.antt =====
-- What `process_event` of the state machine library does when it returns: nothing, or one row fires.

use tg2sip_webrtc.Prelude.{◌≡◌, refl, ◌++◌, Option, none, some, ◌⊎◌, inl, inr, arith}
use tg2sip_webrtc.World.{noexcept-eq-done, World, done, pure, ◌>>=◌, >>=-eq-done}
use tg2sip_webrtc.Gateway.Sml.{
  perform, Sml, Row, Machine, first_fit, by_first_fit, process_event_lem,
}

module _ {S E C : Type 0} (m : Machine S E C) where
  abbrev pub fit : S → E → Option (Row S E C)
  fit s e = first_fit (m.submachine_rows ++ m.rows) s e

  abbrev Ignored : S → E → C → World → S → C → World → Type 0
  Ignored s e c w s' c' w' = (fit s e ≡ none) × (s' ≡ s) × (c' ≡ c) × (w' ≡ w)

  abbrev Fired : S → E → C → World → S → C → World → Type 0
  Fired s e c w s' c' w' =
      (r : Row S E C) × (fit s e ≡ some r)
      × (s' ≡ r.target)
      × (c₁ : C) × (w₁ : World) × (r.action e c w ≡ done c₁ w₁)
      × (m.on_entry r.target e c₁ w₁ ≡ done c' w')

  by_first_fit-cases :
      (s : S) (e : E) (c : C) (w : World) (s' : S) (c' : C) (w' : World)
      (found : Option (Row S E C))
      → fit s e ≡ found
      → by_first_fit m s e c found w ≡ done (s', c') w'
      → Ignored s e c w s' c' w' ⊎ Fired s e c w s' c' w'
  by_first_fit-cases s e c w s' c' w' none f h = inl (f, ground arith, ground arith, ground arith)
  by_first_fit-cases s e c w s' c' w' (some r) f h =
      let ended = noexcept-eq-done (perform m r e c) w h in
      let (c₁, w₁, h₁, rest) =
        >>=-eq-done (r.action e c) (λ c₁. m.on_entry r.target e c₁ >>= λ c₂. pure (r.target, c₂)) w
          ended in
      let (c₂, w₂, h₂, last) =
        >>=-eq-done (m.on_entry r.target e c₁) (λ c₂. pure (r.target, c₂)) w₁ rest in
      inr (r, f, ground (arith, last), c₁, w₁, h₁, ground (arith, h₂, last))

  pub process_event-cases :
      (sml : Sml) (s : S) (e : E) (c : C) (w : World) {s' : S} {c' : C} {w' : World}
      → sml.process_event m s e c w ≡ done (s', c') w'
      → Ignored s e c w s' c' w' ⊎ Fired s e c w s' c' w'
  process_event-cases sml s e c w {s'} {c'} {w'} h =
      by_first_fit-cases s e c w s' c' w' (fit s e) refl (rw (process_event_lem sml m s e c) at h)
