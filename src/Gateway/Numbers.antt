-- ===== src/Gateway/Numbers.antt =====
-- tg2sip/gateway.cpp, `Context::next_ctx_id` and `Gateway::bridges`: the numbers in the ids of the
-- bridges' contexts.
pub mod Handlers
pub mod Unique
use tg2sip_webrtc.Prelude.{
  ℕ, zero, suc, ◌+◌, ◌<◌, ◌≤◌, ◌≡◌, refl, ◌∙◌, List, [], ◌∷◌, ◌++◌, some, Text, get_elem?, set,
  arith,
}
use tg2sip_webrtc.Gateway.Context.{Context, ctx_id_of, new_context}
use tg2sip_webrtc.Gateway.Process.{Bridge, Gateway, remove_at, add_bridge}

-- The numbers of the contexts rise along the list, above `low` and up to `high`.
pub data Rising (pid high : ℕ) : ℕ → List Bridge → Type 0 where
  no_bridges : {low : ℕ} → Rising pid high low []
  above :
      {low : ℕ} {b : Bridge} {bs : List Bridge} (k : ℕ)
      → low < k
      → k ≤ high
      → b.ctx.id ≡ ctx_id_of pid k
      → Rising pid high k bs
      → Rising pid high low (b ∷ bs)

abbrev pub IsNumbered : Gateway → Type 0
IsNumbered g = Rising g.pid g.ctx_counter 0 g.bridges

-- The gateway when the loop begins.
abbrev pub fresh : ℕ → Gateway
fresh pid = record { bridges = []; pid = pid; ctx_counter = 0 }

Rising-lower :
    {pid high low low' : ℕ} {bs : List Bridge}
    → low' ≤ low
    → Rising pid high low bs
    → Rising pid high low' bs
Rising-lower h no_bridges = no_bridges
Rising-lower h (above k l u e rest) = above k (omega arith) u e rest

pub Rising-remove_at :
    {pid high low : ℕ} {bs : List Bridge} (i : ℕ)
    → Rising pid high low bs
    → Rising pid high low (remove_at i bs)
unfolding remove_at
Rising-remove_at i no_bridges = no_bridges
Rising-remove_at zero (above k l u e rest) = Rising-lower (omega arith) rest
Rising-remove_at (suc i) (above k l u e rest) = above k l u e (Rising-remove_at i rest)

-- A bridge replaced by one with the same id.
pub Rising-set :
    {pid high low : ℕ} {bs : List Bridge} (i : ℕ) (b b' : Bridge)
    → get_elem? bs i ≡ some b
    → b'.ctx.id ≡ b.ctx.id
    → Rising pid high low bs
    → Rising pid high low (set bs i b')
Rising-set i b b' found same no_bridges = no_bridges
Rising-set zero b b' found same (above k l u e rest) =
    above k l u (ground (arith, same, found, e)) rest
Rising-set (suc i) b b' found same (above k l u e rest) =
    above k l u e (Rising-set i b b' found same rest)

Rising-append :
    {pid high low : ℕ} {bs : List Bridge} (b : Bridge)
    → low ≤ high
    → b.ctx.id ≡ ctx_id_of pid (high + 1)
    → Rising pid high low bs
    → Rising pid (high + 1) low (bs ++ b ∷ [])
Rising-append b h e no_bridges = above _ (omega arith) (omega arith) e no_bridges
Rising-append b h e (above k l u same rest) =
    above k l (omega arith) same (Rising-append b u e rest)

pub add_bridge-IsNumbered : (g : Gateway) → IsNumbered g → IsNumbered (add_bridge g)
unfolding add_bridge new_context
add_bridge-IsNumbered g h = Rising-append _ (omega arith) refl h
