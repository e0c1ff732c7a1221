-- ===== src/Sip/Endpoint.antt =====
-- tg2sip/sip.cpp: the start of PJSIP (`Client::init_pj_endpoint`, `Client::start`), the account, the
-- log writer and `Client::user_from_uri`. PJSIP is called, in this order, with the values below.
use tg2sip_webrtc.Prelude.{
  ℕ, ◌-◌, Bool, true, false, not, Option, none, some, List, [], ◌∷◌, ◌++◌, Text, text, ltb,
  if◌then◌else◌, ◌==◌, text_eq, ◌≡◌, refl, arith, ==_iff,
}
use tg2sip_webrtc.Settings.{Settings}

-- `LogWriter::write`: spdlog's level of a message of PJSIP's level 0 to 6.
unfoldable spd_log_level : ℕ → ℕ
spd_log_level level = if ltb 5 level then 0 else 5 - level

-- `AccountConfig::AccountConfig`
pub record AccountConfig : Type 0 where
  pub id_uri : Text
  pub timer_min_se_sec : ℕ
  pub timer_sess_expires_sec : ℕ

unfoldable account_config : Settings → AccountConfig
account_config settings = record {
  id_uri = settings.id_uri;
  timer_min_se_sec = 120;
  timer_sess_expires_sec = 1800;
}

-- `pj::EpConfig`, with the fields that the source sets: `none` for one left at its default.
pub record EpConfig : Type 0 where
  pub msg_logging : Option ℕ
  pub console_level : ℕ
  pub decor : ℕ
  pub ec_tail_len : ℕ
  pub thread_cnt : ℕ
  pub audio_frame_ptime : ℕ
  pub ptime : ℕ
  pub clock_rate : ℕ
  pub max_calls : ℕ
  pub stun_server : List Text

-- `pj::TransportConfig`
pub record TransportConfig : Type 0 where
  pub port : ℕ
  pub port_range : ℕ
  pub public_address : Option Text

pub data EndpointCall : Type 0 where
  log_set_level : (level : ℕ) → EndpointCall
  lib_create : EndpointCall
  lib_init : EpConfig → EndpointCall
  set_null_dev : EndpointCall
  codec_enum : EndpointCall
  codec_set_priority : (codec_id : Text) (priority : ℕ) → EndpointCall
  transport_create_udp : TransportConfig → EndpointCall
  lib_start : EndpointCall

-- A value that is set unless the text is empty.
abbrev unless_empty : Text → List Text
unless_empty [] = []
unless_empty (c ∷ s) = (c ∷ s) ∷ []

abbrev if_set : Text → Option Text
if_set [] = none
if_set (c ∷ s) = some (c ∷ s)

-- `max_calls` is `PJSUA_MAX_CALLS`.
unfoldable ep_config : Settings → (max_calls : ℕ) → EpConfig
ep_config settings max_calls = record {
  msg_logging = if not settings.pjsip_log_sip_messages then some 0 else none;
  console_level = 6;
  decor = 0;
  ec_tail_len = 0;
  thread_cnt = settings.sip_thread_count;
  audio_frame_ptime = 10;
  ptime = 10;
  clock_rate = 48000;
  max_calls = max_calls;
  stun_server = unless_empty settings.stun_server;
}

abbrev codec_id : Settings → Text
codec_id settings = if settings.raw_pcm then text "L16/48000/1" else text "opus/48000/2"

-- The loop over the codecs of PJSIP.
unfoldable set_priorities : Text → List Text → List EndpointCall
set_priorities wanted [] = []
set_priorities wanted (codec ∷ codecs) =
    codec_set_priority codec (if codec == wanted then 255 else 0) ∷ set_priorities wanted codecs

unfoldable transport_config : Settings → TransportConfig
transport_config settings = record {
  port = settings.sip_port;
  port_range = settings.sip_port_range;
  public_address = if_set settings.public_address;
}

-- `codecs` is what `codecEnum` returns.
unfoldable init_pj_endpoint : Settings → (max_calls : ℕ) → List Text → List EndpointCall
unfolding ep_config set_priorities transport_config
init_pj_endpoint settings max_calls codecs =
    log_set_level 0
      ∷ lib_create
      ∷ lib_init (ep_config settings max_calls)
      ∷ set_null_dev
      ∷ codec_enum
      ∷ set_priorities (codec_id settings) codecs
    ++ transport_create_udp (transport_config settings) ∷ lib_start ∷ []

-- What `pjsip_parse_uri` makes of a text: no URI, a SIP URI with its user, or one of another scheme.
pub data ParsedUri : Type 0 where
  no_uri : ParsedUri
  sip_uri : (user : Text) → ParsedUri
  other_uri : ParsedUri

-- `pool` says that PJSIP has made a memory pool.
unfoldable pub user_from_uri : (pool : Bool) → (Text → ParsedUri) → Text → Text
user_from_uri false parse uri = []
user_from_uri true parse uri = elim (parse uri) [
  | no_uri ↦ []
  | sip_uri user ↦ user
  | other_uri ↦ []
]

abbrev among : Text → List Text → Bool
among codec [] = false
among codec (other ∷ codecs) = if other == codec then true else among codec codecs

-- The priority that a codec is given first.
abbrev priority_of : Text → List EndpointCall → Option ℕ
priority_of codec [] = none
priority_of codec (codec_set_priority other priority ∷ calls) =
    if other == codec then some priority else priority_of codec calls
priority_of codec (call ∷ calls) = priority_of codec calls

set_priorities-priority :
    (wanted codec : Text) (codecs : List Text) (more : List EndpointCall)
    → priority_of codec more ≡ none
    → priority_of codec (set_priorities wanted codecs ++ more)
      ≡ (if among codec codecs then some (if codec == wanted then 255 else 0) else none)
unfolding set_priorities
set_priorities-priority wanted codec [] more h = h
set_priorities-priority wanted codec (other ∷ codecs) more h = ground (
  arith,
  set_priorities-priority wanted codec codecs more h,
  ==_iff other codec,
  ==_iff other wanted,
  ==_iff codec wanted,
)

-- Every codec of PJSIP is given a priority before the endpoint starts, 255 if it is the one that the
-- settings choose and 0 if it is any other; no other codec is given one.
init_pj_endpoint-priority :
    (settings : Settings) (max_calls : ℕ) (codecs : List Text) (codec : Text)
    → priority_of codec (init_pj_endpoint settings max_calls codecs)
      ≡ (if among codec codecs then some (if codec == codec_id settings then 255 else 0) else none)
unfolding init_pj_endpoint
init_pj_endpoint-priority settings max_calls codecs codec =
    set_priorities-priority (codec_id settings) codec codecs
      (transport_create_udp (transport_config settings) ∷ lib_start ∷ []) refl
