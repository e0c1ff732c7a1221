-- ===== src/Gateway/DialTg.antt =====
-- tg2sip/gateway.cpp: the action `DialTg`, which resolves the extension to a Telegram user, creates
-- the call, and reads flood limits out of TDLib's errors.
use tg2sip_webrtc.Prelude.{
  ℕ, ◌+◌, ◌-◌, ◌*◌, ◌/◌, ◌%◌, ◌^◌, Option, none, some, List, [], ◌∷◌, ◌++◌, Text, text, ℤ, pos,
  negsuc, Bool, true, false, not, ltb, leb, if◌then◌else◌, ◌==◌, nat_eq, int_eq, text_eq, lookup,
  emplace,
}
use tg2sip_webrtc.Utils.{is_digit, to_string, stoi, number, invalid_argument, out_of_range}
use tg2sip_webrtc.Settings.{Settings}
use tg2sip_webrtc.Outside.{
  Outside, TdObject, create_call, import_contacts, search_public_chat, call_id, imported_contacts,
}
use tg2sip_webrtc.World.{M, ◌>>=◌, ◌>>◌, pure, throw, no_meaning, modify, ask_td, now, range_error}
use tg2sip_webrtc.Gateway.Context.{Context, Action}
use tg2sip_webrtc.Gateway.Actions.{report, call_protocol}
use tg2sip_webrtc.Gateway.Values.{param, error_text, internal_server_error, not_found}

-- What stands behind `prefix`.
unfoldable pub strip_prefix : Text → Text → Option Text
strip_prefix [] s = some s
strip_prefix (p ∷ ps) [] = none
strip_prefix (p ∷ ps) (c ∷ s) = let rest = strip_prefix ps s in if p == c then rest else none

-- `\d+` at the front: the longest run of digits, if there is one.
unfoldable pub leading_digits : Text → Text
leading_digits [] = []
leading_digits (c ∷ s) = let more = leading_digits s in if is_digit c then c ∷ more else []

abbrev pub delay_prefix : Text
delay_prefix = text "Too Many Requests: retry after "

abbrev digits_behind : Option Text → Text
digits_behind none = []
digits_behind (some s) = leading_digits s

-- `regex_search` with `Too Many Requests: retry after (\d+)`: the group of the leftmost match.
unfoldable pub search_delay : Text → Option Text
unfolding strip_prefix leading_digits
search_delay [] = none
search_delay (c ∷ s) =
    let later = search_delay s in
    let group = digits_behind (strip_prefix delay_prefix (c ∷ s)) in
    if group == [] then later else some group

-- `regex_search` with a literal.
unfoldable pub contains : Text → Text → Bool
unfolding strip_prefix
contains needle [] = needle == []
contains needle (c ∷ s) = elim (strip_prefix needle (c ∷ s)) [
  | some rest ↦ true
  | none ↦ contains needle s
]

abbrev pub second : ℕ
second = 1000000000

-- Whole seconds from one time to another, cut off towards zero.
unfoldable pub seconds_between : ℕ → ℕ → ℤ
seconds_between from to =
    if leb from to
    then pos ((to - from) / second)
    else (let late = (from - to) / second in if late == 0 then pos 0 else negsuc (late - 1))

module _ (o : Outside) (settings : Settings) where
  abbrev block_for : ℕ → M (Unit {0})
  block_for seconds = do t ← now o; modify λ w. record w { block_until = t + seconds * second }

  -- `int` and `unsigned int` add up as `unsigned int`.
  unfoldable pub parse_error : Text → M (Unit {0})
  unfolding search_delay contains
  parse_error message = elim (search_delay message) [
    | some group ↦ elim (stoi group) [
      | number seconds ↦ block_for ((seconds + settings.extra_wait_time) % 2 ^ 32)
      | invalid_argument ↦ no_meaning
      | out_of_range ↦ throw range_error
    ]
    | none ↦
        if contains (text "PEER_FLOOD") message then block_for settings.peer_flood_time else pure tt
  ]

  -- What the three queries do with an error of TDLib.
  abbrev pub give_up : Context → ℤ → Text → M Context
  give_up ctx code message = do
    report ctx (param true internal_server_error (error_text code message))
    parse_error message
    pure ctx

  unfoldable pub dial_by_id : ℤ → Context → M Context
  unfolding parse_error
  dial_by_id id ctx = do
    let ctx' = record ctx { user_id = id }
    response ← ask_td o (create_call id (call_protocol o settings))
    elim response [
      | TdObject.error code message ↦ give_up ctx' code message
      | call_id i ↦ pure (record ctx' { tg_call_id = i })
      | _ ↦ no_meaning
    ]

  abbrev cache_phone : Text → ℤ → M (Unit {0})
  cache_phone phone id = modify λ w. record w { phone_cache = emplace phone id w.phone_cache }

  abbrev cache_username : Text → ℤ → M (Unit {0})
  cache_username username id =
      modify λ w. record w { username_cache = emplace username id w.username_cache }

  -- `dial_by_phone` where the cache misses, from the contacts on; an empty list has no first entry.
  unfoldable pub dial_imported : Context → List ℤ → M Context
  dial_imported ctx [] = no_meaning
  dial_imported ctx (user_id ∷ rest) =
      if user_id == pos 0
      then report ctx (param true not_found (text "not registered in telegram")) >> pure ctx
      else cache_phone ctx.ext_phone user_id >> dial_by_id user_id ctx

  unfoldable pub dial_by_phone : Context → M Context
  unfolding dial_by_id dial_imported
  dial_by_phone ctx w = elim (lookup ctx.ext_phone w.phone_cache) [
    | some id ↦ dial_by_id id ctx w
    | none ↦
        (ask_td o (import_contacts ctx.ext_phone ctx.ext_phone) >>= λ response. elim response [
          | TdObject.error code message ↦ give_up ctx code message
          | imported_contacts user_ids ↦ dial_imported ctx user_ids
          | _ ↦ no_meaning
        ])
          w
  ]

  -- `dial_by_username` where the cache misses, from the chat on.
  unfoldable pub dial_chat : Context → Bool → ℤ → M Context
  dial_chat ctx is_private id =
      if is_private
      then cache_username ctx.ext_username id >> dial_by_id id ctx
      else report ctx (param true internal_server_error (text "not a user")) >> pure ctx

  unfoldable pub dial_by_username : Context → M Context
  unfolding dial_by_id dial_chat
  dial_by_username ctx w = elim (lookup ctx.ext_username w.username_cache) [
    | some id ↦ dial_by_id id ctx w
    | none ↦
        (ask_td o (search_public_chat ctx.ext_username) >>= λ response. elim response [
          | TdObject.error code message ↦ give_up ctx code message
          | TdObject.chat is_private id ↦ dial_chat ctx is_private id
          | _ ↦ no_meaning
        ])
          w
  ]

  -- The refusal while the gateway is blocked; the clock is read a second time.
  unfoldable pub refuse : Context → ℕ → M Context
  refuse ctx block_until = do
    t ← now o
    report ctx (
        param false internal_server_error
          (text "FLOOD_WAIT " ++ to_string (seconds_between t block_until)))
    pure ctx

  -- Which of the three ways is taken.
  unfoldable pub dial_extension : Context → M Context
  dial_extension ctx =
      if not (ctx.ext_username == [])
      then dial_by_username ctx
      else if not (ctx.ext_phone == [])
      then dial_by_phone ctx
      else dial_by_id ctx.user_id ctx

  unfoldable pub dial_tg : Action
  unfolding refuse dial_extension
  dial_tg e ctx w =
      (now o >>= λ t. if ltb t w.block_until then refuse ctx w.block_until else dial_extension ctx)
        w
