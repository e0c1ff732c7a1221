-- ===== src/Gateway/Sml.antt =====
-- The state machine library (Boost.SML) as the gateway uses it: a machine is its rows in the order
-- of the transition tables, the rows of the submachines and those of the machine itself, and the
-- entry actions of its states. `Sml` is the library with its documented behaviour as laws.
use tg2sip_webrtc.Prelude.{
  Bool, ◌&&◌, Option, none, some, List, [], ◌∷◌, ◌++◌, ◌≡◌, if◌then◌else◌, Option-cases, inl, inr,
}
use tg2sip_webrtc.World.{M, noexcept, ◌>>=◌, pure}

-- `source + event [guard] / action = target`. A composite state is the source of a row by a test
-- that holds in each of its substates.
pub record Row (S E C : Type 0) : Type 0 where
  pub source : S → Bool
  pub takes : E → Bool
  pub action : E → C → M C
  pub target : S

pub record Machine (S E C : Type 0) : Type 0 where
  pub submachine_rows : List (Row S E C)
  pub rows : List (Row S E C)
  pub on_entry : S → E → C → M C

module _ {S E C : Type 0} where
  -- The first row whose source is the state and whose event type and guard take the event.
  abbrev pub first_fit : List (Row S E C) → S → E → Option (Row S E C)
  first_fit [] s e = none
  first_fit (r ∷ rs) s e = if r.source s && r.takes e then some r else first_fit rs s e

  -- The action, then the entry action of the target.
  abbrev pub perform : Machine S E C → Row S E C → E → C → M (S × C)
  perform m r e c = r.action e c >>= λ c'. m.on_entry r.target e c' >>= λ c''. pure (r.target, c'')

  -- A submachine is asked before the machine that holds it; an event that no row takes is ignored.
  -- No row of the tables takes `exception<_>`, so that the library calls them in a `noexcept`
  -- function.
  abbrev pub by_first_fit : Machine S E C → S → E → C → Option (Row S E C) → M (S × C)
  by_first_fit m s e c none = pure (s, c)
  by_first_fit m s e c (some r) = noexcept (perform m r e c)

pub record Sml : Type 1 where
  -- `sm.process_event(e)` in state `s`; the result is the new state.
  pub process_event : {S E C : Type 0} → Machine S E C → S → E → C → M (S × C)
  pub ignores :
      {S E C : Type 0} (m : Machine S E C) (s : S) (e : E) (c : C)
      → first_fit (m.submachine_rows ++ m.rows) s e ≡ none
      → process_event m s e c ≡ pure (s, c)
  pub fires :
      {S E C : Type 0} (m : Machine S E C) (s : S) (e : E) (c : C) (r : Row S E C)
      → first_fit (m.submachine_rows ++ m.rows) s e ≡ some r
      → process_event m s e c ≡ noexcept (perform m r e c)

-- The two laws together determine `process_event`.
pub process_event_lem :
    (sml : Sml) {S E C : Type 0} (m : Machine S E C) (s : S) (e : E) (c : C)
    → sml.process_event m s e c ≡ by_first_fit m s e c (first_fit (m.submachine_rows ++ m.rows) s e)
process_event_lem sml m s e c = elim (Option-cases (first_fit (m.submachine_rows ++ m.rows) s e)) [
  | inl nothing ↦ rw nothing (sml.ignores m s e c nothing)
  | inr (r, fit) ↦ rw fit (sml.fires m s e c r fit)
]

pub by_first_fit-none :
    {S E C : Type 0} (m : Machine S E C) (s : S) (e : E) (c : C) (r : Option (Row S E C))
    → r ≡ none
    → by_first_fit m s e c r ≡ pure (s, c)
by_first_fit-none m s e c r h = rw h

pub by_first_fit-some :
    {S E C : Type 0} (m : Machine S E C) (s : S) (e : E) (c : C) (r : Row S E C)
    (found : Option (Row S E C))
    → found ≡ some r
    → by_first_fit m s e c found ≡ noexcept (perform m r e c)
by_first_fit-some m s e c r found h = rw h

-- An implementation of the interface, for the examples.
abbrev pub first_fit_sml : Sml
first_fit_sml = record {
  process_event = λ m s e c. by_first_fit m s e c (first_fit (m.submachine_rows ++ m.rows) s e);
  ignores = λ m s e c h. by_first_fit-none m s e c _ h;
  fires = λ m s e c r h. by_first_fit-some m s e c r _ h;
}
