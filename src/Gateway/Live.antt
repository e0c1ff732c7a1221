-- ===== src/Gateway/Live.antt =====
-- tg2sip/gateway.cpp: the bridges that are left after an event is delivered.
pub mod Round
use tg2sip_webrtc.Prelude.{
  ℕ, zero, suc, ◌≡◌, refl, List, [], ◌∷◌, ◌++◌, Option, none, some, Bool, true, false, not, ◌&&◌,
  get_elem?, set, Bool-cases, Option-cases, inl, inr, arith, ◌⊎◌, Text, ℤ,
}
use tg2sip_webrtc.Outside.{Outside, UpdateNewMessage, UpdateCall, MessageSender, user}
use tg2sip_webrtc.World.{
  World, M, done, pure, ◌>>=◌, >>=-eq-done, SipEvent, InternalEvent, internal_error,
  signaling_data_emitted, TgUpdate, call, new_message, new_call_signaling_data, other_update,
}
use tg2sip_webrtc.Settings.{Settings}
use tg2sip_webrtc.Gateway.Context.{Event, tg_message, tg_call, sip}
use tg2sip_webrtc.Gateway.Sml.{Sml}
use tg2sip_webrtc.Gateway.Machine.{
  State, init, from_tg, from_sip, terminated, is_terminated, machine,
}
use tg2sip_webrtc.Gateway.Transitions.{state-process_event, next}
use tg2sip_webrtc.Gateway.Process.{
  Bridge, Gateway, remove_at, add_bridge, find_index, search_call, destroy, feed, settle, deliver,
  route_message, process_call, process_sip, process_message, process_internal_error,
  process_internal, process_signaling, process_update, tick, bridges_of_user, with_found, handle,
  pop_internal, pop_tg, pop_sip, is_context, is_tg_call, is_sip_call, sip_event_id,
}

-- No bridge is in the terminal state.
unfoldable pub all_live : List Bridge → Bool
all_live [] = true
all_live (b ∷ bs) = not (is_terminated b.sm) && all_live bs

abbrev pub IsLive : Gateway → Type 0
IsLive g = all_live g.bridges ≡ true

pub all_live-set :
    (bs : List Bridge) (i : ℕ) (b : Bridge)
    → all_live bs ≡ true
    → is_terminated b.sm ≡ false
    → all_live (set bs i b) ≡ true
unfolding all_live
all_live-set [] i b h l = refl
all_live-set (c ∷ bs) zero b h l = ground arith
all_live-set (c ∷ bs) (suc i) b h l = ground (arith, all_live-set bs i b)

pub all_live-get :
    (bs : List Bridge) (i : ℕ) (b : Bridge)
    → all_live bs ≡ true
    → get_elem? bs i ≡ some b
    → is_terminated b.sm ≡ false
unfolding all_live
all_live-get [] i b h e = ground arith
all_live-get (c ∷ bs) zero b h e = ground arith
all_live-get (c ∷ bs) (suc i) b h e = ground (arith, all_live-get bs i b)

all_live-remove_at :
    (bs : List Bridge) (i : ℕ) → all_live bs ≡ true → all_live (remove_at i bs) ≡ true
unfolding all_live remove_at
all_live-remove_at [] i h = refl
all_live-remove_at (c ∷ bs) zero h = ground arith
all_live-remove_at (c ∷ bs) (suc i) h = ground (arith, all_live-remove_at bs i)

all_live-append :
    (bs : List Bridge) (b : Bridge)
    → all_live bs ≡ true
    → is_terminated b.sm ≡ false
    → all_live (bs ++ b ∷ []) ≡ true
unfolding all_live
all_live-append [] b h l = ground arith
all_live-append (c ∷ bs) b h l = ground (arith, all_live-append bs b)

add_bridge-IsLive : (g : Gateway) → IsLive g → IsLive (add_bridge g)
unfolding add_bridge
add_bridge-IsLive g h = all_live-append g.bridges _ h refl

pub search_call-IsLive : (p : Bridge → Bool) (g : Gateway) → IsLive g → IsLive (search_call p g).0
unfolding search_call
search_call-IsLive p g h = ground (arith, add_bridge-IsLive g h)

-- A part of the round that leaves no terminated bridge behind.
abbrev pub KeepsLive : (Gateway → M Gateway) → Type 0
KeepsLive f =
    (g : Gateway) (w : World) (g' : Gateway) (w' : World)
    → IsLive g
    → f g w ≡ done g' w'
    → IsLive g'

pub KeepsLive-seq :
    (f k : Gateway → M Gateway) → KeepsLive f → KeepsLive k → KeepsLive (λ g. f g >>= k)
KeepsLive-seq f k keeps then_keeps g w g' w' h e =
    let (g₁, w₁, first, rest) = >>=-eq-done (f g) k w e in
    then_keeps g₁ w₁ g' w' (keeps g w g₁ w₁ h first) rest

pub KeepsLive-after :
    {T : Type 0} (m : M T) (k : T → Gateway → M Gateway)
    → ((t : T) → KeepsLive (k t))
    → KeepsLive (λ g. m >>= λ t. k t g)
KeepsLive-after m k keeps g w g' w' h e =
    let (t, w₁, first, rest) = >>=-eq-done m (λ t. k t g) w e in keeps t g w₁ g' w' h rest

module _ (sml : Sml) (o : Outside) (settings : Settings) where
  settle-IsLive :
      (i : ℕ) (b : Bridge) (g : Gateway) (w : World) {g' : Gateway} {w' : World}
      → IsLive g
      → settle sml o settings i b g w ≡ done g' w'
      → IsLive g'
  unfolding settle
  settle-IsLive i b g w {g'} {w'} h e = elim (Bool-cases (is_terminated b.sm)) [
    | inl over ↦
        let (u, v, destroyed, last) =
          >>=-eq-done (destroy sml o settings b.ctx)
            (λ u. pure (record g { bridges = remove_at i g.bridges })) w (rw (over, settle) at e) in
        ground (arith, last, all_live-remove_at g.bridges i h)
    | inr live ↦ ground (arith, all_live-set g.bridges i b h live)
  ]

  pub deliver-IsLive :
      (e : Event) (g : Gateway) (i : ℕ) (w : World) {g' : Gateway} {w' : World}
      → IsLive g
      → deliver sml o settings e (g, i) w ≡ done g' w'
      → IsLive g'
  unfolding deliver
  deliver-IsLive e g i w h run = elim (Option-cases (get_elem? g.bridges i)) [
    | inl nothing ↦ ground (arith, rw (nothing, deliver) at run)
    | inr (b, found) ↦
        let (b', v, fed, last) =
          >>=-eq-done (feed sml o settings e b) (λ b'. settle sml o settings i b' g) w
            (rw (found, deliver) at run) in
        settle-IsLive i b' g v h last
  ]
