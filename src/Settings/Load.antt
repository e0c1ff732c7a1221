-- ===== src/Settings/Load.antt =====
-- tg2sip/settings.cpp: which configurations are accepted, and the ranges of what is read.
use tg2sip_webrtc.Prelude.{
  ◌<◌, ◌≤◌, ◌^◌, ◌≡◌, ◌↔◌, Bool, true, false, none, some, text, ℤ, pos, negsuc, arith, ◌≢◌, ==_iff,
  [], int_eq, text_eq, to_int32, to_unsigned, ◌⊎◌, inl, inr, Bool-cases, ◌==◌, ◌||◌,
}
use tg2sip_webrtc.Settings.{IniReader, Settings, clamp_level, read, load, is_loaded, is_negative}

clamp_level-le : (z : ℤ) → clamp_level z ≤ 6
unfolding clamp_level
clamp_level-le (pos n) = omega arith
clamp_level-le (negsuc n) = omega arith

-- The settings count as loaded exactly when the file could be read, the API identifier is not 0
-- as an `int`, and the API hash is not empty.
pub is_loaded_iff :
    (reader : IniReader)
    → (is_loaded (load reader) ≡ true) ↔ (
        (is_negative reader.parse_error ≡ false)
        × (to_int32 (reader.get_integer (text "telegram") (text "api_id") (pos 0)) ≢ pos 0)
        × (reader.get (text "telegram") (text "api_hash") (text "") ≢ []))
unfolding is_loaded load read
is_loaded_iff reader = ground (
  arith,
  ==_iff (to_int32 (reader.get_integer (text "telegram") (text "api_id") (pos 0))) (pos 0),
  ==_iff (reader.get (text "telegram") (text "api_hash") (text "")) [],
)

-- The bounds of the values that the constructor narrows.
pub record InRange (s : Settings) : Type 0 where
  pub console : s.console_min_level ≤ 6
  pub file : s.file_min_level ≤ 6
  pub core : s.log_level ≤ 6
  pub pjsip : s.pjsip_log_level ≤ 6
  pub tgcalls : s.tgcalls_log_level ≤ 6
  pub tdlib : s.tdlib_log_level ≤ 6
  pub port : s.sip_port < 2 ^ 32
  pub range : s.sip_port_range < 2 ^ 32
  pub threads : s.sip_thread_count < 2 ^ 32
  pub voip_port : s.voip_proxy_port < 2 ^ 16
  pub extra : s.extra_wait_time < 2 ^ 32
  pub flood : s.peer_flood_time < 2 ^ 32

to_unsigned32_lt : (z : ℤ) → to_unsigned 32 z < 2 ^ 32
to_unsigned32_lt (pos n) = omega arith
to_unsigned32_lt (negsuc n) = omega arith

to_unsigned16_lt : (z : ℤ) → to_unsigned 16 z < 2 ^ 16
to_unsigned16_lt (pos n) = omega arith
to_unsigned16_lt (negsuc n) = omega arith

read-InRange : (reader : IniReader) (loaded : Bool) → InRange (read reader loaded)
unfolding read
read-InRange reader loaded = record {
  console = clamp_level-le _;
  file = clamp_level-le _;
  core = clamp_level-le _;
  pjsip = clamp_level-le _;
  tgcalls = clamp_level-le _;
  tdlib = clamp_level-le _;
  port = to_unsigned32_lt _;
  range = to_unsigned32_lt _;
  threads = to_unsigned32_lt _;
  voip_port = to_unsigned16_lt _;
  extra = to_unsigned32_lt _;
  flood = to_unsigned32_lt _;
}

-- Whatever integers the file holds: either it could not be read, or the six log levels lie in 0..6
-- and the narrowed numbers in their types.
pub load-InRange :
    (reader : IniReader)
    → (load reader ≡ none) ⊎ ((s : Settings) × (load reader ≡ some s) × InRange s)
unfolding load
load-InRange reader = elim (Bool-cases (is_negative reader.parse_error)) [
  | inl unreadable ↦ inl (rw unreadable)
  | inr readable ↦ elim (Bool-cases (values.api_id == pos 0 || values.api_hash == [])) [
    | inl refused ↦ inr (read reader false, rw (readable, refused), read-InRange reader false)
    | inr accepted ↦ inr (values, rw (readable, accepted), read-InRange reader true)
  ]
]
  where
    values : Settings
    values = read reader true
