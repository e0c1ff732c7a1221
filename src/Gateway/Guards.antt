-- ===== src/Gateway/Guards.antt =====
-- tg2sip/gateway.cpp, namespace `state_machine::guards`.
use tg2sip_webrtc.Prelude.{
  ℕ, Bool, true, false, not, ◌&&◌, ◌||◌, [], ◌∷◌, Text, leb, length, ◌==◌, nat_eq, text_eq,
}
use tg2sip_webrtc.Outside.{
  CallState, pending, ready, discarded, other_state, UpdateCall, UpdateNewMessage, message_text,
  other_content, InvState, null, calling, incoming, early, connecting, confirmed, disconnected,
}
use tg2sip_webrtc.Utils.{is_digit}
use tg2sip_webrtc.Settings.{Settings}
use tg2sip_webrtc.World.{incoming_call, call_state_update, call_media_state_update}
use tg2sip_webrtc.Gateway.Context.{Event, tg_call, tg_message, sip, internal_error}

-- `get_id()` of the call states, up to the choice of distinct numbers.
abbrev pub pending_id : ℕ
pending_id = 0

abbrev pub ready_id : ℕ
ready_id = 1

abbrev pub discarded_id : ℕ
discarded_id = 2

abbrev pub error_id : ℕ
error_id = 3

abbrev pub get_id : CallState → ℕ
get_id pending = pending_id
get_id (ready key servers) = ready_id
get_id discarded = discarded_id
get_id (CallState.error code message) = error_id
get_id other_state = 4

abbrev inv_code : InvState → ℕ
inv_code null = 0
inv_code calling = 1
inv_code incoming = 2
inv_code early = 3
inv_code connecting = 4
inv_code confirmed = 5
inv_code disconnected = 6

unfoldable pub is_incoming : UpdateCall → Bool
is_incoming u = not u.is_outgoing

unfoldable pub is_in_state : ℕ → UpdateCall → Bool
is_in_state id u = get_id u.state == id

unfoldable pub callback_uri_is_set : Settings → Bool
callback_uri_is_set settings = not (settings.callback_uri == [])

unfoldable pub is_sip_in_state : InvState → InvState → Bool
is_sip_in_state wanted state = inv_code state == inv_code wanted

unfoldable pub is_text_content : UpdateNewMessage → Bool
is_text_content m = elim m.content [ message_text t ↦ true | other_content ↦ false ]

-- `[0-9A-D*#]`
abbrev is_dtmf_char : ℕ → Bool
is_dtmf_char c = is_digit c || (leb b'A' c && leb c b'D') || c == b'*' || c == b'#'

abbrev all_dtmf : Text → Bool
all_dtmf [] = true
all_dtmf (c ∷ s) = is_dtmf_char c && all_dtmf s

-- `regex_match` with `^[0-9A-D*#]{1,32}$`
unfoldable is_dtmf_text : Text → Bool
is_dtmf_text s = all_dtmf s && leb 1 (length s) && leb (length s) 32

-- The guard stands behind `IsTextContent`; the cast of another content has no meaning.
unfoldable pub is_dtmf_string : UpdateNewMessage → Bool
unfolding is_dtmf_text
is_dtmf_string m = elim m.content [ message_text t ↦ is_dtmf_text t | other_content ↦ false ]

-- The event type of a row with its guard: `updateCall`.
abbrev pub on_call : (UpdateCall → Bool) → Event → Bool
on_call g (tg_call u) = g u
on_call g e = false

-- `updateNewMessage`
abbrev pub on_message : (UpdateNewMessage → Bool) → Event → Bool
on_message g (tg_message m) = g m
on_message g e = false

-- `sip::events::IncomingCall`
abbrev pub on_incoming : Event → Bool
on_incoming (sip (incoming_call id extension)) = true
on_incoming e = false

-- `sip::events::CallStateUpdate`
abbrev pub on_call_state : (InvState → Bool) → Event → Bool
on_call_state g (sip (call_state_update id state)) = g state
on_call_state g e = false

-- `sip::events::CallMediaStateUpdate`
abbrev pub on_media : (Bool → Bool) → Event → Bool
on_media g (sip (call_media_state_update id has_media)) = g has_media
on_media g e = false

-- `InternalError`
abbrev pub on_internal_error : Event → Bool
on_internal_error (internal_error prm) = true
on_internal_error e = false
