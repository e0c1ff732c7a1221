-- ===== src/Gateway/Rows.antt =====
-- tg2sip/gateway.cpp: a property of every row of the transition tables, and of the row that fires.
use mathlib.Core.Path.{subst}
use tg2sip_webrtc.Prelude.{
  ◌≡◌, ◌++◌, none, some, List, [], ◌∷◌, true, ◌&&◌, Bool-cases, inl, inr, arith,
}
use tg2sip_webrtc.Gateway.Context.{Event}
use tg2sip_webrtc.Gateway.Sml.{first_fit}
use tg2sip_webrtc.Gateway.Machine.{State, GatewayRow}

infixr 5 ◌▹◌
pub data AllRows (P : GatewayRow → Type 0) : List GatewayRow → Type 0 where
  no_rows : AllRows P []
  ◌▹◌ : {r : GatewayRow} {rs : List GatewayRow} → P r → AllRows P rs → AllRows P (r ∷ rs)

pub AllRows-++ :
    {P : GatewayRow → Type 0} {rs ts : List GatewayRow}
    → AllRows P rs
    → AllRows P ts
    → AllRows P (rs ++ ts)
AllRows-++ no_rows k = k
AllRows-++ (p ▹ h) k = p ▹ AllRows-++ h k

some_row-injective : {r t : GatewayRow} → some r ≡ some t → r ≡ t
some_row-injective h = cc h

no_row : {r : GatewayRow} → ¬ (none ≡ some r)
no_row h = cc h

-- The row that fires takes the event in the state, and has the property.
pub first_fit-AllRows :
    (P : GatewayRow → Type 0) (rs : List GatewayRow) (s : State) (e : Event) {r : GatewayRow}
    → AllRows P rs
    → first_fit rs s e ≡ some r
    → P r × (r.source s ≡ true) × (r.takes e ≡ true)
first_fit-AllRows P [] s e h found = absurd (no_row found)
first_fit-AllRows P (t ∷ rs) s e (p ▹ h) found = elim (Bool-cases (t.source s && t.takes e)) [
  | inl fits ↦
      subst (λ r. P r × (r.source s ≡ true) × (r.takes e ≡ true))
        (some_row-injective (rw fits at found)) (p, ground arith, ground arith)
  | inr unfit ↦ first_fit-AllRows P rs s e h (rw unfit at found)
]
