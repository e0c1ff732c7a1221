-- ===== src/Gateway/Flood.antt =====
-- tg2sip/gateway.cpp: `DialTg`: the flood limits of Telegram, and the caches of user ids.
use tg2sip_webrtc.Gateway.Stray.{bind-done}
use tg2sip_webrtc.World.{◌>>=◌, World, done, noted, internal_error}
use tg2sip_webrtc.Gateway.Values.{error_text, param, internal_server_error}
use tg2sip_webrtc.Prelude.{
  ◌∙◌, ℕ, ◌+◌, ◌*◌, ◌%◌, ◌^◌, ◌<◌, ◌≤◌, ◌≡◌, ◌≢◌, refl, [], ◌∷◌, ◌++◌, none, some, Text, text, ℤ,
  pos, true, false, ==_iff, nat_eq, int_eq, text_eq, lookup, emplace, lookup-emplace, arith, lt→ltb,
}
use tg2sip_webrtc.Utils.{is_digits, to_string, stoi, number}
use tg2sip_webrtc.Utils.Decimal.{stoi-to_string}
use tg2sip_webrtc.Settings.{Settings}
use tg2sip_webrtc.Outside.{Outside, TdObject, create_call, search_public_chat, call_id, td, clock}
use tg2sip_webrtc.OptionalQueue
use tg2sip_webrtc.Gateway.Context.{Context, Event}
use tg2sip_webrtc.Gateway.Actions.{call_protocol}
use tg2sip_webrtc.Gateway.DialTg.{
  strip_prefix, leading_digits, delay_prefix, search_delay, second, seconds_between, parse_error,
  dial_by_id, dial_by_username, dial_chat, dial_extension, refuse, dial_tg,
}

strip_prefix-append : (p s : Text) → strip_prefix p (p ++ s) ≡ some s
unfolding strip_prefix
strip_prefix-append [] s = refl
strip_prefix-append (c ∷ p) s = rw (strip_prefix-append p s) (ground (arith, ==_iff c c))

leading_digits-is_digits : (s : Text) → is_digits s ≡ true → leading_digits s ≡ s
unfolding is_digits leading_digits
leading_digits-is_digits [] d = refl
leading_digits-is_digits (c ∷ s) d = ground (arith, leading_digits-is_digits s)

-- The message that TDLib sends holds its delay.
search_delay_lem :
    (s : Text) → is_digits s ≡ true → s ≢ [] → search_delay (delay_prefix ++ s) ≡ some s
unfolding search_delay
search_delay_lem s d ne = rw (leading_digits-is_digits s d) (ground (arith, ==_iff s []))

module _ (o : Outside) (settings : Settings) where
  parse_error-found :
      (message group : Text) (n : ℕ) (w : World)
      → search_delay message ≡ some group
      → stoi group ≡ number n
      → parse_error o settings message w
        ≡ done tt (record (noted clock w) {
          block_until = o.clock_answer w.trace + (n + settings.extra_wait_time) % 2 ^ 32 * second;
        })
  unfolding parse_error
  parse_error-found message group n w found v = ground arith

  -- An error of TDLib whose message is `Too Many Requests: retry after n`, with n below 2^31, blocks
  -- the gateway from now on for n seconds and the extra time of the settings, added up in 32 bits,
  -- and does nothing else.
  pub parse_error-delay :
      (n : ℕ) (w : World)
      → n < 2 ^ 31
      → parse_error o settings (delay_prefix ++ to_string (pos n)) w
        ≡ done tt (record (noted clock w) {
          block_until = o.clock_answer w.trace + (n + settings.extra_wait_time) % 2 ^ 32 * second;
        })
  parse_error-delay n w h =
      let (d, ne, v) = stoi-to_string n h in
      parse_error-found (delay_prefix ++ to_string (pos n)) (to_string (pos n)) n w
        (search_delay_lem (to_string (pos n)) d ne) v

  -- The world after a refused call.
  abbrev pub refused_world : Context → World → World
  refused_world ctx w = record w {
    trace = clock ∷ clock ∷ w.trace;
    internal_events =
        OptionalQueue.emplace
          (some (
            internal_error ctx.id (
              param false internal_server_error (
                text "FLOOD_WAIT "
                ++ to_string (seconds_between (o.clock_answer (clock ∷ w.trace)) w.block_until)))))
          w.internal_events;
  }

  dial_tg-blocked :
      (e : Event) (ctx : Context) (w : World)
      → o.clock_answer w.trace < w.block_until
      → dial_tg o settings e ctx w ≡ done ctx (refused_world ctx w)
  unfolding dial_tg refuse
  dial_tg-blocked e ctx w h = rw (lt→ltb (o.clock_answer w.trace) w.block_until h)

  -- The world after TDLib has answered `createCall` with a delay.
  abbrev pub delayed_world : ℕ → ℤ → ℤ → Context → World → World
  delayed_world n id code ctx w =
      let t = td (create_call id (call_protocol o settings)) ∷ w.trace in
      record w {
        trace = clock ∷ t;
        internal_events =
            OptionalQueue.emplace
              (some (
                internal_error ctx.id (
                  param true internal_server_error
                    (error_text code (delay_prefix ++ to_string (pos n))))))
              w.internal_events;
        block_until = o.clock_answer t + (n + settings.extra_wait_time) % 2 ^ 32 * second;
      }

  dial_by_id-delayed :
      (n : ℕ) (id code : ℤ) (ctx : Context) (w : World)
      → n < 2 ^ 31
      → o.td_answer w.trace (create_call id (call_protocol o settings))
        ≡ TdObject.error code (delay_prefix ++ to_string (pos n))
      → dial_by_id o settings id ctx w
        ≡ done (record ctx { user_id = id }) (delayed_world n id code ctx w)
  unfolding dial_by_id
  dial_by_id-delayed n id code ctx w small answered =
      let v = record w {
        trace = td (create_call id (call_protocol o settings)) ∷ w.trace;
        internal_events =
            OptionalQueue.emplace
              (some (
                internal_error ctx.id (
                  param true internal_server_error
                    (error_text code (delay_prefix ++ to_string (pos n))))))
              w.internal_events;
      } in
      rw answered (
        bind-done (parse_error o settings (delay_prefix ++ to_string (pos n))) _ v
          (parse_error-delay n v small))

  -- Where TDLib answers `createCall` with `Too Many Requests: retry after n`, with n below 2^31, the
  -- error is reported to the bridge that called; and a call of any bridge that follows before n
  -- seconds and the extra time of the settings have passed, added up in 32 bits, asks Telegram
  -- nothing: it reports to its own bridge the time that is left, and changes nothing else.
  pub dial_by_id-blocks :
      (n : ℕ) (id code : ℤ) (e : Event) (ctx other : Context) (w : World)
      → n < 2 ^ 31
      → o.td_answer w.trace (create_call id (call_protocol o settings))
        ≡ TdObject.error code (delay_prefix ++ to_string (pos n))
      → o.clock_answer (delayed_world n id code ctx w).trace
        < (delayed_world n id code ctx w).block_until
      → (dial_by_id o settings id ctx >>= λ c. dial_tg o settings e other) w
        ≡ done other (refused_world other (delayed_world n id code ctx w))
  dial_by_id-blocks n id code e ctx other w small answered soon =
      bind-done (dial_by_id o settings id ctx) _ w
        (dial_by_id-delayed n id code ctx w small answered)
      ∙ dial_tg-blocked e other (delayed_world n id code ctx w) soon

  -- While the gateway is not blocked, `DialTg` of a user name that is cached, where TDLib creates
  -- the call, reads the clock and makes the one request `createCall` with the cached user, and
  -- stores the user and the call in the context; nothing is searched and nothing else changes.
  pub dial_tg-cached :
      (e : Event) (ctx : Context) (w : World) (user i : ℤ)
      → w.block_until ≤ o.clock_answer w.trace
      → ctx.ext_username ≢ []
      → lookup ctx.ext_username w.username_cache ≡ some user
      → o.td_answer (clock ∷ w.trace) (create_call user (call_protocol o settings)) ≡ call_id i
      → dial_tg o settings e ctx w
        ≡ done
            (record ctx { user_id = user; tg_call_id = i })
            (record w {
              trace = td (create_call user (call_protocol o settings)) ∷ clock ∷ w.trace;
            })
  unfolding dial_tg dial_extension dial_by_username dial_by_id
  dial_tg-cached e ctx w user i unblocked ne known answered =
      ground (arith, ==_iff ctx.ext_username [])

  -- A user name that the cache does not have, which TDLib finds to be a private chat and whose call
  -- it creates: after these two requests the name is in the cache with the user that was found, and
  -- the context holds the user and the call.
  dial_by_username-caches :
      (ctx : Context) (w : World) (user i : ℤ)
      → lookup ctx.ext_username w.username_cache ≡ none
      → o.td_answer w.trace (search_public_chat ctx.ext_username) ≡ TdObject.chat true user
      → o.td_answer
          (td (search_public_chat ctx.ext_username) ∷ w.trace)
          (create_call user (call_protocol o settings))
        ≡ call_id i
      → (w' : World) × (dial_by_username o settings ctx w
          ≡ done (record ctx { user_id = user; tg_call_id = i }) w')
        × (lookup ctx.ext_username w'.username_cache ≡ some user)
        × (w'.trace
            ≡ td (create_call user (call_protocol o settings))
              ∷ td (search_public_chat ctx.ext_username)
              ∷ w.trace)
  unfolding dial_by_username dial_chat dial_by_id
  dial_by_username-caches ctx w user i unknown found answered =
      let cached = lookup-emplace ctx.ext_username ctx.ext_username user w.username_cache in
      let w' : World = record w {
        trace =
            td (create_call user (call_protocol o settings))
            ∷ td (search_public_chat ctx.ext_username)
            ∷ w.trace;
        username_cache = emplace ctx.ext_username user w.username_cache;
      } in
      (
        w',
        ground arith,
        ground (arith, cached, unknown, ==_iff ctx.ext_username ctx.ext_username),
        refl,
      )
