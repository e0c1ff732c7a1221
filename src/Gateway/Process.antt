-- ===== src/Gateway/Process.antt =====
-- tg2sip/gateway.cpp: the `Gateway`, its bridges, the overloads of `process_event` and one
-- round of the loop of `start`.
use tg2sip_webrtc.Prelude.{
  ℕ, zero, suc, ◌+◌, Option, none, some, List, [], ◌∷◌, ◌++◌, Text, ℤ, Bool, if◌then◌else◌, ◌==◌,
  int_eq, text_eq, nat_eq, get_elem?, set, length,
}
use tg2sip_webrtc.Outside.{
  Outside, UpdateCall, UpdateNewMessage, UpdateNewCallSignalingData, user, MessageSender,
  send_call_signaling_data,
}
use tg2sip_webrtc.OptionalQueue
use tg2sip_webrtc.World.{
  M, ◌>>=◌, ◌>>◌, pure, no_meaning, noexcept, ask_td, SipEvent, incoming_call, call_state_update,
  call_media_state_update, InternalEvent, internal_error, signaling_data_emitted, TgUpdate, call,
  new_message, new_call_signaling_data, other_update, done,
}
use tg2sip_webrtc.Settings.{Settings}
use tg2sip_webrtc.Voip.MediaPorts.{destroy_ports}
use tg2sip_webrtc.Voip.Controller.{stop_controller, update_signaling}
use tg2sip_webrtc.Gateway.Context.{Context, new_context, ctx_id_of, Event, tg_call, tg_message, sip}
use tg2sip_webrtc.Gateway.Sml.{Sml}
use tg2sip_webrtc.Gateway.Machine.{State, init, is_terminated, machine}

pub record Bridge : Type 0 where
  pub sm : State
  pub ctx : Context

-- `Gateway::bridges`, with the process id and the counter of `Context::next_ctx_id`.
pub record Gateway : Type 0 where
  pub bridges : List Bridge
  pub pid : ℕ
  pub ctx_counter : ℕ

-- `std::find_if`, as an index.
unfoldable pub find_index : (Bridge → Bool) → List Bridge → Option ℕ
find_index p [] = none
find_index p (b ∷ bs) =
    let later = find_index p bs in
    if p b then some 0 else elim later [ none ↦ none | some i ↦ some (suc i) ]

unfoldable pub remove_at : ℕ → List Bridge → List Bridge
remove_at i [] = []
remove_at zero (b ∷ bs) = bs
remove_at (suc i) (b ∷ bs) = b ∷ remove_at i bs

abbrev pub is_context : Text → Bridge → Bool
is_context id b = b.ctx.id == id

abbrev pub is_tg_call : ℤ → Bridge → Bool
is_tg_call id b = b.ctx.tg_call_id == id

abbrev pub is_sip_call : ℤ → Bridge → Bool
is_sip_call id b = b.ctx.sip_call_id == id

-- A bridge is added at the end.
unfoldable pub add_bridge : Gateway → Gateway
add_bridge g =
    let counter = g.ctx_counter + 1 in
    record g {
      bridges = g.bridges ++ record { sm = init; ctx = new_context (ctx_id_of g.pid counter) } ∷ [];
      ctx_counter = counter;
    }

-- `Gateway::search_call`: the gateway, which may have a bridge more, and the index found.
unfoldable pub search_call : (Bridge → Bool) → Gateway → Gateway × ℕ
unfolding find_index add_bridge
search_call p g = elim (find_index p g.bridges) [
  | some i ↦ (g, i)
  | none ↦ (add_bridge g, length g.bridges)
]

-- The bridges whose context knows the user.
unfoldable pub bridges_of_user : ℤ → ℕ → List Bridge → List ℕ
bridges_of_user user_id i [] = []
bridges_of_user user_id i (b ∷ bs) =
    let rest = bridges_of_user user_id (i + 1) bs in
    if b.ctx.user_id == user_id then i ∷ rest else rest

-- The id that a SIP event carries.
abbrev pub sip_event_id : SipEvent → ℤ
sip_event_id (incoming_call id extension) = id
sip_event_id (call_state_update id state) = id
sip_event_id (call_media_state_update id has_media) = id

module _ (sml : Sml) (o : Outside) (settings : Settings) where
  -- `TgCallsController::~TgCallsController` with the ports, at the deletion of a bridge; an exception
  -- out of it ends the process.
  unfoldable pub destroy : Context → M (Unit {0})
  destroy ctx = elim ctx.controller [
    | none ↦ pure tt
    | some c ↦ noexcept (
        (if c.created then stop_controller o c >>= (λ c'. pure tt) else pure tt)
        >> destroy_ports o c.ctx_id)
  ]

  -- `sm->process_event` on a bridge.
  unfoldable pub feed : Event → Bridge → M Bridge
  feed e b = sml.process_event (machine o settings) b.sm e b.ctx >>= λ r.
      pure (record { sm = r.0; ctx = r.1 })

  -- The bridge after its event: kept, or deleted in state `X`.
  unfoldable pub settle : ℕ → Bridge → Gateway → M Gateway
  unfolding destroy remove_at
  settle i b g =
      if is_terminated b.sm
      then destroy b.ctx >> pure (record g { bridges = remove_at i g.bridges })
      else pure (record g { bridges = set g.bridges i b })

  -- The common end of the overloads that may delete the bridge.
  unfoldable pub deliver : Event → Gateway × ℕ → M Gateway
  unfolding feed settle
  deliver e (g, i) = elim (get_elem? g.bridges i) [
    | none ↦ no_meaning
    | some b ↦ feed e b >>= λ b'. settle i b' g
  ]

  unfoldable pub process_call : UpdateCall → Gateway → M Gateway
  unfolding search_call deliver
  process_call u g = deliver (tg_call u) (search_call (is_tg_call u.id) g)

  unfoldable pub process_sip : SipEvent → Gateway → M Gateway
  unfolding search_call deliver
  process_sip e g = deliver (sip e) (search_call (is_sip_call (sip_event_id e)) g)

  -- A message never deletes a bridge.
  unfoldable pub route_message : UpdateNewMessage → List ℕ → Gateway → M Gateway
  unfolding feed
  route_message m (i ∷ []) g = elim (get_elem? g.bridges i) [
    | none ↦ no_meaning
    | some b ↦ feed (tg_message m) b >>= λ b'. pure (record g { bridges = set g.bridges i b' })
  ]
  route_message m matches g = pure g

  unfoldable pub process_message : UpdateNewMessage → Gateway → M Gateway
  unfolding route_message bridges_of_user
  process_message m g = elim m.sender_id [
    | user user_id ↦ route_message m (bridges_of_user user_id 0 g.bridges) g
    | MessageSender.chat id ↦ pure g
  ]

  -- What an overload does with the bridge that it finds, without making one.
  abbrev pub with_found : Option ℕ → (Bridge → M (Unit {0})) → Gateway → M Gateway
  with_found none f g = pure g
  with_found (some i) f g = elim (get_elem? g.bridges i) [
    | none ↦ no_meaning
    | some b ↦ f b >> pure g
  ]

  unfoldable pub process_internal_error : Text → Event → Gateway → M Gateway
  unfolding find_index deliver
  process_internal_error ctx_id e g = elim (find_index (is_context ctx_id) g.bridges) [
    | none ↦ pure g
    | some i ↦ deliver e (g, i)
  ]

  abbrev pub send_signaling : List ℕ → Bridge → M (Unit {0})
  send_signaling bytes b = elim b.ctx.controller [
    | none ↦ pure tt
    | some c ↦ ask_td o (send_call_signaling_data b.ctx.tg_call_id bytes) >>= λ dropped. pure tt
  ]

  abbrev pub receive_signaling : List ℕ → Bridge → M (Unit {0})
  receive_signaling bytes b = elim b.ctx.controller [
    | none ↦ pure tt
    | some c ↦ update_signaling o c bytes
  ]

  unfoldable pub process_internal : InternalEvent → Gateway → M Gateway
  unfolding process_internal_error find_index
  process_internal (internal_error ctx_id prm) g =
      process_internal_error ctx_id (Event.internal_error prm) g
  process_internal (signaling_data_emitted ctx_id bytes) g =
      with_found (find_index (is_context ctx_id) g.bridges) (send_signaling bytes) g

  unfoldable pub process_signaling : UpdateNewCallSignalingData → Gateway → M Gateway
  unfolding find_index
  process_signaling u g =
      with_found (find_index (is_tg_call u.call_id) g.bridges) (receive_signaling u.bytes) g

  unfoldable pub process_update : TgUpdate → Gateway → M Gateway
  unfolding process_call process_message process_signaling
  process_update (call u) g = process_call u g
  process_update (new_message m) g = process_message m g
  process_update (new_call_signaling_data u) g = process_signaling u g
  process_update other_update g = pure g

  -- One popped event, if there is one.
  abbrev pub handle {ℓ} : {T : Type ℓ} → (T → Gateway → M Gateway) → Option T → Gateway → M Gateway
  handle f none g = pure g
  handle f (some t) g = f t g

  abbrev pub pop_internal : M (Option InternalEvent)
  pop_internal w =
      let r = OptionalQueue.pop w.internal_events in done r.0 (record w { internal_events = r.1 })

  abbrev pub pop_tg : M (Option TgUpdate)
  pop_tg w = let r = OptionalQueue.pop w.tg_events in done r.0 (record w { tg_events = r.1 })

  abbrev pub pop_sip : M (Option SipEvent)
  pop_sip w = let r = OptionalQueue.pop w.sip_events in done r.0 (record w { sip_events = r.1 })

  -- One round of the loop of `Gateway::start`, without the sleep.
  unfoldable pub tick : Gateway → M Gateway
  unfolding process_internal process_update process_sip
  tick g = do
    internal ← pop_internal
    g₁ ← handle process_internal internal g
    update ← pop_tg
    g₂ ← handle process_update update g₁
    event ← pop_sip
    handle process_sip event g₂
