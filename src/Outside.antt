-- ===== src/Outside.antt =====
-- What the gateway meets outside its own code: the values that TDLib, PJSIP and ntgcalls exchange
-- with it, the requests it makes of them, and `Outside`, which answers every request as a function
-- of all the requests made before. tg2sip/gateway.cpp, sip.cpp and voip/controller.cpp make them.
use tg2sip_webrtc.Prelude.{ℕ, List, Text, ℤ, Bool, Option}

-- `td_api::Server`, with the two server types that the source tells apart.
pub data ServerType : Type 0 where
  reflector : (peer_tag : List ℕ) → ServerType
  webrtc : (username password : Text) (supports_turn supports_stun : Bool) → ServerType
  other_server : ServerType

pub record CallServer : Type 0 where
  pub id : ℕ
  pub ip_address : Text
  pub ipv6_address : Text
  pub port : ℤ
  pub type : ServerType

-- `td_api::CallState`; `other_state` is any state that the source does not name.
pub data CallState : Type 0 where
  pending : CallState
  ready : (encryption_key : List ℕ) (servers : List CallServer) → CallState
  discarded : CallState
  error : (code : ℤ) (message : Text) → CallState
  other_state : CallState

-- `td_api::updateCall`, with the fields of its call.
pub record UpdateCall : Type 0 where
  pub id : ℤ
  pub user_id : ℤ
  pub is_outgoing : Bool
  pub state : CallState

pub data MessageSender : Type 0 where
  user : ℤ → MessageSender
  chat : ℤ → MessageSender

pub data MessageContent : Type 0 where
  message_text : Text → MessageContent
  other_content : MessageContent

-- `td_api::updateNewMessage`
pub record UpdateNewMessage : Type 0 where
  pub sender_id : MessageSender
  pub content : MessageContent

-- `td_api::updateNewCallSignalingData`
pub record UpdateNewCallSignalingData : Type 0 where
  pub call_id : ℤ
  pub bytes : List ℕ

-- `td_api::user`; `username` is the editable user name, `none` where there are no user names.
pub record User : Type 0 where
  pub id : ℤ
  pub have_access : Bool
  pub first_name : Text
  pub last_name : Text
  pub username : Option Text
  pub phone_number : Text

-- `td_api::callProtocol`
pub record CallProtocol : Type 0 where
  pub udp_p2p : Bool
  pub udp_reflector : Bool
  pub min_layer : ℤ
  pub max_layer : ℤ
  pub library_versions : List Text

-- The TDLib functions that the gateway sends.
pub data TdFunction : Type 0 where
  get_user : ℤ → TdFunction
  accept_call : ℤ → CallProtocol → TdFunction
  create_call : ℤ → CallProtocol → TdFunction
  discard_call : (call_id connection_id : ℤ) → TdFunction
  import_contacts : (phone_number first_name : Text) → TdFunction
  search_public_chat : Text → TdFunction
  send_call_signaling_data : ℤ → List ℕ → TdFunction
  search_contacts : Text → ℤ → TdFunction

-- The TDLib objects that answer them; `is_private` tells `chatTypePrivate` from the other types.
pub data TdObject : Type 0 where
  error : (code : ℤ) (message : Text) → TdObject
  user : User → TdObject
  call_id : ℤ → TdObject
  imported_contacts : (user_ids : List ℤ) → TdObject
  chat : (is_private : Bool) (id : ℤ) → TdObject
  users : (user_ids : List ℤ) → TdObject
  ok : TdObject

-- `pj::CallOpParam`
pub record CallOpParam : Type 0 where
  pub use_default_call_setting : Bool
  pub status_code : ℕ
  pub reason : Text
  pub headers : List (Text × Text)

-- `pjsip_inv_state`
pub data InvState : Type 0 where
  null calling incoming early connecting confirmed disconnected : InvState

-- One medium of `pj::CallInfo`: its type is audio, `getMedia` has it, and it is a `pj::AudioMedia`.
pub record MediaInfo : Type 0 where
  pub is_audio : Bool
  pub is_there : Bool
  pub is_audio_media : Bool

-- The two ports of a controller: from SIP to ntgcalls, and from ntgcalls to SIP.
pub data Direction : Type 0 where
  input output : Direction

-- The arguments of `pjmedia_port_info_init`; the signature is given by its two letters.
pub record PortInfo : Type 0 where
  pub name : Text
  pub signature : Text
  pub clock_rate : ℕ
  pub channel_count : ℕ
  pub bits_per_sample : ℕ
  pub samples_per_frame : ℕ

-- The PJSIP functions that a port is made and destroyed with.
pub data PortCall : Type 0 where
  pool_create : (name : Text) (initial_size increment_size : ℕ) → PortCall
  port_info_init : PortInfo → PortCall
  register_media_port : PortCall
  unregister_media_port : PortCall
  port_destroy : PortCall
  pool_release : PortCall

-- The PJSIP functions that the sources call. The first number names the `pj::Call` object.
pub data PjFunction : Type 0 where
  make_call : ℕ → Text → CallOpParam → PjFunction
  get_id : ℕ → PjFunction
  answer : ℕ → CallOpParam → PjFunction
  hangup : ℕ → CallOpParam → PjFunction
  dial_dtmf : ℕ → Text → PjFunction
  get_media : ℕ → PjFunction
  get_state : ℕ → PjFunction
  has_media : ℕ → PjFunction
  -- The user part of the local URI of a call.
  local_user : ℕ → PjFunction
  -- `pj::Call::~Call` of a call that nobody has hung up: PJSIP hangs it up if it is active.
  delete_call : ℕ → PjFunction
  -- For a port of the controller that the context `owner` made.
  port : (owner : Text) → Direction → PortCall → PjFunction
  -- From medium `m` of the call into the gateway's input port, and from its output port into `m`.
  start_transmit_to_input : (call m : ℕ) → PjFunction
  start_transmit_from_output : (call m : ℕ) → PjFunction

-- A PJSIP function returns a value, or throws `pj::Error` with its reason.
pub data PjResult : Type 0 where
  returned : PjResult
  id : ℤ → PjResult
  state : InvState → PjResult
  flag : Bool → PjResult
  name : Text → PjResult
  media : List MediaInfo → PjResult
  failed : (reason : Text) → PjResult

-- `voip::RtcServer`, which ntgcalls is handed.
pub record RtcServer : Type 0 where
  pub id : ℕ
  pub ipv4 : Text
  pub ipv6 : Text
  pub username : Text
  pub password : Text
  pub port : ℕ
  pub turn : Bool
  pub stun : Bool
  pub tcp : Bool
  pub peer_tag : List ℕ

-- The ntgcalls functions, each for the call of one user.
pub data NtgFunction : Type 0 where
  create_p2p : ℤ → NtgFunction
  set_capture_sources : ℤ → NtgFunction
  set_playback_sources : ℤ → NtgFunction
  skip_exchange : ℤ → List ℕ → Bool → NtgFunction
  connect_p2p : ℤ → List RtcServer → List Text → Bool → NtgFunction
  stop : ℤ → NtgFunction
  send_signaling_data : ℤ → List ℕ → NtgFunction
  send_external_frame : ℤ → List ℤ → NtgFunction

-- An ntgcalls call completes, is rejected synchronously, or completes with an error.
pub data NtgResult : Type 0 where
  completed : NtgResult
  rejected : (code : ℤ) → NtgResult
  errored : (code : ℤ) (message : Text) → NtgResult

-- One request to the outside.
pub data Request : Type 0 where
  td : TdFunction → Request
  pj : PjFunction → Request
  ntg : NtgFunction → Request
  clock : Request

-- The answers: each may depend on every request made before (newest first).
pub record Outside : Type 0 where
  pub td_answer : List Request → TdFunction → TdObject
  pub pj_answer : List Request → PjFunction → PjResult
  pub ntg_answer : List Request → NtgFunction → NtgResult
  -- Whether assertions are compiled in.
  pub asserts : Bool
  -- `std::chrono::steady_clock::now()` in nanoseconds.
  pub clock_answer : List Request → ℕ
  -- `minLayer` and `maxLayer` of `ntg_get_protocol`.
  pub min_layer : ℤ
  pub max_layer : ℤ
