-- ===== src/Examples.antt =====
-- A concrete outside, settings and world, on which the tests of all parts run.
use tg2sip_webrtc.Prelude.{[], ◌∷◌, text, pos, true, false}
use tg2sip_webrtc.Outside.{
  Outside, TdFunction, TdObject, PjFunction, PjResult, completed, create_call, search_public_chat,
  call_id, get_id, get_media, get_state, has_media, local_user, confirmed,
}
use tg2sip_webrtc.Settings.{Settings}
use tg2sip_webrtc.World.{World, Outcome, done, threw, aborted, undefined}
use tg2sip_webrtc.Voip.Controller.{TgCallsController, make_controller}

abbrev td_replies : TdFunction → TdObject
td_replies (create_call user protocol) = call_id (pos 70)
td_replies (search_public_chat name) = TdObject.chat true (pos 33)
td_replies f = TdObject.ok

abbrev pj_replies : PjFunction → PjResult
pj_replies (get_id object) = PjResult.id (pos 5)
pj_replies (get_media object) =
    PjResult.media (record { is_audio = true; is_there = true; is_audio_media = true } ∷ [])
pj_replies (get_state object) = PjResult.state confirmed
pj_replies (has_media object) = PjResult.flag true
pj_replies (local_user object) = PjResult.name (text "123")
pj_replies f = PjResult.returned

-- Everything succeeds; the time is always 1000.
abbrev pub calm : Outside
calm = record {
  td_answer = λ asked f. td_replies f;
  pj_answer = λ asked f. pj_replies f;
  ntg_answer = λ asked f. completed;
  asserts = true;
  clock_answer = λ asked. 1000;
  min_layer = pos 65;
  max_layer = pos 92;
}

abbrev pub settings : Settings
settings = record {
  is_loaded = true;
  console_min_level = 0;
  file_min_level = 0;
  log_level = 2;
  pjsip_log_level = 2;
  pjsip_log_sip_messages = true;
  tgcalls_log_level = 2;
  tdlib_log_level = 2;
  log_folder = [];
  sip_port = 5060;
  id_uri = text "sip:tg@localhost";
  callback_uri = text "sip:100@pbx";
  public_address = [];
  stun_server = [];
  raw_pcm = true;
  sip_thread_count = 1;
  sip_port_range = 0;
  api_id = pos 17;
  api_hash = text "hash";
  db_folder = [];
  system_language_code = text "en-US";
  device_model = text "PC";
  system_version = text "Linux";
  application_version = text "1.0";
  udp_p2p = false;
  udp_reflector = true;
  aec_enabled = false;
  ns_enabled = false;
  agc_enabled = false;
  proxy_enabled = false;
  proxy_address = [];
  proxy_port = pos 0;
  proxy_username = [];
  proxy_password = [];
  voip_proxy_enabled = false;
  voip_proxy_address = [];
  voip_proxy_port = 0;
  voip_proxy_username = [];
  voip_proxy_password = [];
  extra_wait_time = 30;
  peer_flood_time = 86400;
}

-- One SIP call, of object 0 with id 5, is kept, and the user `bob` is cached.
abbrev pub world : World
world = record {
  trace = [];
  objects = 1;
  calls = (pos 5, record { object = 0; local_user = text "123" }) ∷ [];
  sip_events = [];
  tg_events = [];
  internal_events = [];
  username_cache = (text "bob", pos 12) ∷ [];
  phone_cache = [];
  block_until = 0;
  sinks = [];
}

abbrev pub controller : TgCallsController
controller = make_controller (pos 12) [] true [] false (text "1-1")

-- The world in which a run ends.
abbrev pub world_of {ℓ} : {A : Type ℓ} → Outcome A → World
world_of (done a w) = w
world_of (threw e w) = w
world_of (aborted e) = world
world_of undefined = world
