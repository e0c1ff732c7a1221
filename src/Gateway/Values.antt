-- ===== src/Gateway/Values.antt =====
-- tg2sip/gateway.cpp, namespace `state_machine::actions`: the values that the actions compute: call
-- parameters, the caller's headers, ntgcalls' servers and the reading of an extension.
use tg2sip_webrtc.Prelude.{
  ℕ, Option, none, some, List, [], ◌∷◌, ◌++◌, Text, text, ℤ, pos, Bool, false, not, ◌&&◌, ltb,
  if◌then◌else◌, ◌==◌, nat_eq, int_eq, text_eq, length, take, drop, get_or, to_unsigned,
}
use tg2sip_webrtc.Utils.{is_digits, to_string, stol, number, invalid_argument, out_of_range}
use tg2sip_webrtc.Outside.{
  CallOpParam, CallServer, reflector, webrtc, other_server, RtcServer, User,
}
use tg2sip_webrtc.Gateway.Context.{Context}

-- PJSIP's status codes.
abbrev pub ringing : ℕ
ringing = 180

abbrev pub ok_code : ℕ
ok_code = 200

abbrev pub not_found : ℕ
not_found = 404

abbrev pub bad_extension : ℕ
bad_extension = 420

abbrev pub internal_server_error : ℕ
internal_server_error = 500

-- `pj::CallOpParam(flag)` with a status and a reason.
abbrev pub param : Bool → ℕ → Text → CallOpParam
param use_default code reason = record {
  use_default_call_setting = use_default;
  status_code = code;
  reason = reason;
  headers = [];
}

-- `std::to_string(error->code_) + "; " + error->message_`
abbrev pub error_text : ℤ → Text → Text
error_text code message = to_string code ++ text "; " ++ message

-- The servers that are handed to ntgcalls.
unfoldable pub rtc_servers_of : List CallServer → List RtcServer
rtc_servers_of [] = []
rtc_servers_of (s ∷ servers) =
    let rest = rtc_servers_of servers in
    elim s.type [
      | reflector peer_tag ↦
          record {
            id = s.id;
            ipv4 = s.ip_address;
            ipv6 = s.ipv6_address;
            username = [];
            password = [];
            port = to_unsigned 16 s.port;
            turn = false;
            stun = false;
            tcp = false;
            peer_tag = peer_tag;
          }
          ∷ rest
      | webrtc username password supports_turn supports_stun ↦
          if not supports_turn && not supports_stun
          then rest
          else record {
            id = s.id;
            ipv4 = s.ip_address;
            ipv6 = s.ipv6_address;
            username = username;
            password = password;
            port = to_unsigned 16 s.port;
            turn = supports_turn;
            stun = supports_stun;
            tcp = false;
            peer_tag = [];
          }
            ∷ rest
      | other_server ↦ rest
    ]

-- One optional header of `DialSip`.
abbrev header_if : Text → Text → List (Text × Text)
header_if name value = if value == [] then [] else (name, value) ∷ []

abbrev pub or_empty : Option Text → Text
or_empty none = []
or_empty (some t) = t

-- The headers that describe the caller.
unfoldable pub caller_headers : Text → ℤ → User → List (Text × Text)
caller_headers ctx_id tg_user_id user =
    (text "X-GW-Context", ctx_id)
    ∷ (text "X-TG-ID", to_string tg_user_id)
    ∷ (header_if (text "X-TG-FirstName") user.first_name
        ++ header_if (text "X-TG-LastName") user.last_name
        ++ header_if (text "X-TG-Username") (or_empty user.username)
        ++ header_if (text "X-TG-Phone") user.phone_number)

-- Which of the three kinds of extension is dialled, as the context that it leaves; `none` is
-- `ext_valid == false`.
unfoldable pub read_extension : Text → Context → Option Context
read_extension ext ctx =
    if ltb 3 (length ext) && take 3 ext == text "tg#"
    then some (record ctx { ext_username = drop 3 ext })
    else if ltb 1 (length ext) && get_or ext 0 0 == b'+' && is_digits (drop 1 ext)
    then some (record ctx { ext_phone = drop 1 ext })
    else if is_digits ext
    then elim (stol ext) [
      | number n ↦ some (record ctx { user_id = pos n })
      | invalid_argument ↦ none
      | out_of_range ↦ none
    ]
    else none
