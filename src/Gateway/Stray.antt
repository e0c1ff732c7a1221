-- ===== src/Gateway/Stray.antt =====
-- tg2sip/gateway.cpp: events for calls that no bridge has, and that begin none.
use tg2sip_webrtc.Prelude.{
  ℕ, ◌+◌, ◌≡◌, refl, ◌∙◌, ap, List, [], ◌∷◌, ◌++◌, none, some, get_elem?, length, Bool, true, false,
  ◌&&◌, arith, int_eq,
}
use tg2sip_webrtc.Outside.{Outside, UpdateCall}
use tg2sip_webrtc.World.{
  World, M, done, ◌>>=◌, SipEvent, incoming_call, call_state_update, call_media_state_update,
}
use tg2sip_webrtc.Settings.{Settings}
use tg2sip_webrtc.Gateway.Context.{Context, Event, tg_call, sip, new_context, ctx_id_of}
use tg2sip_webrtc.Gateway.Guards.{
  is_incoming, is_in_state, pending_id, on_call, on_call_state, on_media,
}
use tg2sip_webrtc.Gateway.Actions.{clean_up, stop_voip, discard_tg, hang_up_sip}
use tg2sip_webrtc.Gateway.Sml.{Sml, first_fit}
use tg2sip_webrtc.Gateway.Machine.{
  State, init, terminated, machine, entry, no_action, row, is_init, from_tg_table, from_sip_table,
  state_machine_table,
}
use tg2sip_webrtc.Gateway.Process.{
  Bridge, Gateway, find_index, remove_at, add_bridge, search_call, destroy, feed, settle, deliver,
  process_call, process_sip, is_tg_call, is_sip_call, sip_event_id,
}

pub get_elem?-last : (bs : List Bridge) (b : Bridge) → get_elem? (bs ++ b ∷ []) (length bs) ≡ some b
get_elem?-last [] b = refl
get_elem?-last (c ∷ bs) b = get_elem?-last bs b

remove_at-last : (bs : List Bridge) (b : Bridge) → remove_at (length bs) (bs ++ b ∷ []) ≡ bs
unfolding remove_at
remove_at-last [] b = refl
remove_at-last (c ∷ bs) b = ap (λ ds. c ∷ ds) (remove_at-last bs b)

-- The next context of the gateway.
abbrev pub fresh_context : Gateway → Context
fresh_context g = new_context (ctx_id_of g.pid (g.ctx_counter + 1))

abbrev is_incoming_call : SipEvent → Bool
is_incoming_call (incoming_call id extension) = true
is_incoming_call e = false

abbrev fresh_bridge : Gateway → Bridge
fresh_bridge g = record { sm = init; ctx = fresh_context g }

pub bind-done {ℓ κ} :
    {A : Type ℓ} {B : Type κ} (m : M A) (f : A → M B) (w : World) {a : A} {v : World}
    → m w ≡ done a v
    → (m >>= f) w ≡ f a v
bind-done m f w h = rw (h, ◌>>=◌) refl

module _ (sml : Sml) (o : Outside) (settings : Settings) where
  feed-done :
      (e : Event) (b : Bridge) (w : World) (s : State) (ctx : Context)
      → sml.process_event (machine o settings) b.sm e b.ctx w ≡ done (s, ctx) w
      → feed sml o settings e b w ≡ done (record { sm = s; ctx = ctx }) w
  unfolding feed
  feed-done e b w s ctx h = bind-done (sml.process_event (machine o settings) b.sm e b.ctx) _ w h

  -- A new bridge that terminates at once without a call leaves only its number.
  stray :
      (e : Event) (g : Gateway) (w : World)
      → sml.process_event (machine o settings) init e (fresh_context g) w
        ≡ done (terminated, fresh_context g) w
      → deliver sml o settings e (add_bridge g, length g.bridges) w
        ≡ done (record g { ctx_counter = g.ctx_counter + 1 }) w
  unfolding deliver settle destroy add_bridge new_context
  stray e g w h =
      rw (get_elem?-last g.bridges (fresh_bridge g), deliver)
        (bind-done (feed sml o settings e (fresh_bridge g)) _ w
            (feed-done e (fresh_bridge g) w terminated (fresh_context g) h)
          ∙ ap (λ bs. done (record g { bridges = bs; ctx_counter = g.ctx_counter + 1 }) w)
              (remove_at-last g.bridges (fresh_bridge g)))

  pub search_call-none :
      (p : Bridge → Bool) (g : Gateway)
      → find_index p g.bridges ≡ none
      → search_call p g ≡ (add_bridge g, length g.bridges)
  unfolding search_call
  search_call-none p g h = rw (h, search_call) refl

  -- A row without an action takes the event, and the bridge terminates.
  process_event-dropped :
      (source : State → Bool) (takes : Event → Bool) (e : Event) (id : List ℕ) (w : World)
      → first_fit ((machine o settings).submachine_rows ++ (machine o settings).rows) init e
        ≡ some (row source takes no_action terminated)
      → sml.process_event (machine o settings) init e (new_context id) w
        ≡ done (terminated, new_context id) w
  unfolding machine entry clean_up stop_voip discard_tg hang_up_sip new_context
  process_event-dropped source takes e id w fit =
      ap (λ m. m w)
        (sml.fires (machine o settings) init e (new_context id)
          (row source takes no_action terminated) fit)

  sip-dropped :
      (e : SipEvent) (id : List ℕ) (w : World)
      → is_incoming_call e ≡ false
      → sml.process_event (machine o settings) init (sip e) (new_context id) w
        ≡ done (terminated, new_context id) w
  unfolding machine from_tg_table from_sip_table state_machine_table
  sip-dropped (incoming_call call extension) id w h = absurd (cc h)
  sip-dropped (call_state_update call state) id w h =
      process_event-dropped is_init (on_call_state λ s. true) (sip (call_state_update call state))
        id w refl
  sip-dropped (call_media_state_update call has_media) id w h =
      process_event-dropped is_init (on_media λ m. true)
        (sip (call_media_state_update call has_media)) id w refl

  call-dropped :
      (u : UpdateCall) (id : List ℕ) (w : World)
      → (is_incoming u && is_in_state pending_id u) ≡ false
      → sml.process_event (machine o settings) init (tg_call u) (new_context id) w
        ≡ done (terminated, new_context id) w
  unfolding machine from_tg_table from_sip_table state_machine_table
  call-dropped u id w h =
      process_event-dropped is_init (on_call λ u. true) (tg_call u) id w (ground (arith, h))

  -- A change of the state or the media of a SIP call that no bridge has makes no request, changes
  -- no queue and leaves the bridges as they are: the bridge made for it is deleted at once, and
  -- only its number is spent.
  pub process_sip-stray :
      (e : SipEvent) (g : Gateway) (w : World)
      → is_incoming_call e ≡ false
      → find_index (is_sip_call (sip_event_id e)) g.bridges ≡ none
      → process_sip sml o settings e g w ≡ done (record g { ctx_counter = g.ctx_counter + 1 }) w
  unfolding process_sip
  process_sip-stray e g w other unknown =
      ap (λ found. deliver sml o settings (sip e) found w)
        (search_call-none (is_sip_call (sip_event_id e)) g unknown)
      ∙ stray (sip e) g w (sip-dropped e (ctx_id_of g.pid (g.ctx_counter + 1)) w other)

  -- An update of a Telegram call that no bridge has, unless the call is a pending one that comes
  -- in, makes no request, changes no queue and leaves the bridges as they are: the bridge made for
  -- it is deleted at once, and only its number is spent.
  process_call-stray :
      (u : UpdateCall) (g : Gateway) (w : World)
      → (is_incoming u && is_in_state pending_id u) ≡ false
      → find_index (is_tg_call u.id) g.bridges ≡ none
      → process_call sml o settings u g w ≡ done (record g { ctx_counter = g.ctx_counter + 1 }) w
  unfolding process_call
  process_call-stray u g w other unknown =
      ap (λ found. deliver sml o settings (tg_call u) found w)
        (search_call-none (is_tg_call u.id) g unknown)
      ∙ stray (tg_call u) g w (call-dropped u (ctx_id_of g.pid (g.ctx_counter + 1)) w other)
