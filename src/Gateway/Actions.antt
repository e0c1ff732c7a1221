-- ===== src/Gateway/Actions.antt =====
-- tg2sip/gateway.cpp, namespace `state_machine::actions`: every action but `DialTg`. An action
-- takes the event and the context, and changes the context and the world.
use tg2sip_webrtc.Prelude.{
  Option, none, some, [], pos, Bool, true, false, if◌then◌else◌, ◌==◌, nat_eq, int_eq, text_eq,
  take, ltb, length, ℕ, List,
}
use tg2sip_webrtc.Settings.{Settings}
use tg2sip_webrtc.Outside.{
  Outside, CallOpParam, ready, UpdateCall, message_text, other_content, CallProtocol, TdObject,
  CallServer, get_user, accept_call, discard_call,
}
use tg2sip_webrtc.World.{
  M, ◌>>=◌, ◌>>◌, pure, throw, no_meaning, catching, emit, ask_td, pj_error, runtime_error,
  range_error, incoming_call, internal_error,
}
use tg2sip_webrtc.Sip
use tg2sip_webrtc.Sip.{invalid_id}
use tg2sip_webrtc.Voip.MediaPorts.{make_ports}
use tg2sip_webrtc.Voip.Controller.{
  make_controller, start_owned, connect, stop_controller, supported_versions,
}
use tg2sip_webrtc.Gateway.Context.{Context, Action, Event, tg_call, tg_message, sip}
use tg2sip_webrtc.Gateway.Values.{
  bad_extension, caller_headers, error_text, internal_server_error, ok_code, param, read_extension,
  ringing, rtc_servers_of,
}

-- `internal_events.emplace(InternalError{ctx.id(), prm})`
abbrev pub report : Context → CallOpParam → M (Unit {0})
report ctx prm = emit (internal_error ctx.id prm)

-- The `catch` blocks that report a failure: `pj::Error`, and where `all` holds `std::runtime_error`.
abbrev report_failure : Bool → Context → M Context → M Context
report_failure all ctx m = catching m λ e. elim e [
  | pj_error reason ↦ report ctx (param false internal_server_error reason) >> pure ctx
  | runtime_error message ↦
      if all
      then report ctx (param false internal_server_error message) >> pure ctx
      else throw (runtime_error message)
  | range_error ↦ throw range_error
]

unfoldable pub store_sip_id : Action
store_sip_id (sip (incoming_call id extension)) ctx = pure (record ctx { sip_call_id = id })
store_sip_id e ctx = no_meaning

unfoldable pub store_tg_id : Action
store_tg_id (tg_call u) ctx = pure (record ctx { tg_call_id = u.id })
store_tg_id e ctx = no_meaning

unfoldable pub store_tg_user_id : Action
store_tg_user_id (tg_call u) ctx = pure (record ctx { user_id = u.user_id })
store_tg_user_id e ctx = no_meaning

-- The reason of the end is only logged.
unfoldable pub clean_tg_id : Action
clean_tg_id e ctx = pure (record ctx { tg_call_id = pos 0 })

unfoldable pub clean_sip_id : Action
clean_sip_id e ctx = pure (record ctx { sip_call_id = invalid_id })

unfoldable pub set_hangup_prm : Action
set_hangup_prm (Event.internal_error prm) ctx = pure (record ctx { hangup_prm = prm })
set_hangup_prm e ctx = no_meaning

module _ (o : Outside) (settings : Settings) where
  abbrev pub call_protocol : CallProtocol
  call_protocol = record {
    udp_p2p = settings.udp_p2p;
    udp_reflector = settings.udp_reflector;
    min_layer = o.min_layer;
    max_layer = o.max_layer;
    library_versions = supported_versions;
  }

  -- The first block of `CleanUp`.
  unfoldable pub stop_voip : Context → M Context
  stop_voip ctx = elim ctx.controller [
    | none ↦ pure ctx
    | some c ↦ stop_controller o c >>= λ c'. pure (record ctx { controller = some c' })
  ]

  -- The second block; a failure is only logged.
  unfoldable pub discard_tg : Context → M Context
  discard_tg ctx = if ctx.tg_call_id == pos 0 then pure ctx else (do
    result ← ask_td o (discard_call ctx.tg_call_id ctx.tg_call_id)
    pure (record ctx { tg_call_id = pos 0 }))

  -- The third block; `pj::Error` is only logged.
  unfoldable pub hang_up_sip : Context → M Context
  hang_up_sip ctx = if ctx.sip_call_id == invalid_id then pure ctx else (do
    catching (Sip.hang_up o ctx.sip_call_id ctx.hangup_prm) λ e. elim e [
      | pj_error reason ↦ pure tt
      | runtime_error message ↦ throw (runtime_error message)
      | range_error ↦ throw range_error
    ]
    pure (record ctx { sip_call_id = invalid_id }))

  unfoldable pub clean_up : Action
  unfolding stop_voip discard_tg hang_up_sip
  clean_up e ctx = do stopped ← stop_voip ctx; left ← discard_tg stopped; hang_up_sip left

  -- `DialSip` from TDLib's answer on.
  unfoldable pub dial_sip_as : UpdateCall → Context → TdObject → M Context
  dial_sip_as u ctx (TdObject.error code message) = throw (runtime_error message)
  dial_sip_as u ctx (TdObject.user user) = report_failure false ctx (
      Sip.dial o settings.callback_uri (record {
        use_default_call_setting = true;
        status_code = 0;
        reason = [];
        headers = caller_headers ctx.id u.user_id user;
      })
      >>= λ sip_id. pure (record ctx { sip_call_id = sip_id }))
  dial_sip_as u ctx other = no_meaning

  unfoldable pub dial_sip : Action
  unfolding dial_sip_as
  dial_sip (tg_call u) ctx = ask_td o (get_user u.user_id) >>= dial_sip_as u ctx
  dial_sip e ctx = no_meaning

  unfoldable pub answer_tg : Action
  answer_tg e ctx = do
    response ← ask_td o (accept_call ctx.tg_call_id call_protocol)
    elim response [
      | TdObject.error code message ↦
          report ctx (param false internal_server_error (error_text code message)) >> pure ctx
      | _ ↦ pure ctx
    ]

  unfoldable pub accept_extension : Context → Option Context → M Context
  accept_extension ctx none = report ctx (param false bad_extension []) >> pure ctx
  accept_extension ctx (some ctx') =
      report_failure true ctx'
        (Sip.answer_call o ctx'.sip_call_id (param true ringing []) >> pure ctx')

  unfoldable pub accept_incoming_sip : Action
  unfolding accept_extension
  accept_incoming_sip (sip (incoming_call id extension)) ctx =
      accept_extension ctx (read_extension extension ctx)
  accept_incoming_sip e ctx = no_meaning

  unfoldable pub answer_sip : Action
  answer_sip e ctx =
      report_failure true ctx
        (Sip.answer_call o ctx.sip_call_id (param true ok_code []) >> pure ctx)

  -- The controller made, with its ports, and started.
  unfoldable pub start_voip : UpdateCall → List ℕ → List CallServer → Context → M Context
  start_voip u encryption_key servers ctx = do
    make_ports o ctx.id
    started ← start_owned o (
        make_controller ctx.user_id (take 256 encryption_key) u.is_outgoing (rtc_servers_of servers)
          settings.udp_p2p ctx.id)
    connected ← connect o started
    pure (record ctx { controller = some connected })

  -- `memcpy` reads 256 bytes of the key, which has no meaning for a shorter one.
  unfoldable pub create_tg_voip_for : UpdateCall → Context → M Context
  unfolding start_voip
  create_tg_voip_for u ctx = elim u.state [
    | ready encryption_key servers ↦
        if ltb (length encryption_key) 256
        then no_meaning
        else start_voip u encryption_key servers ctx
    | _ ↦ no_meaning
  ]

  unfoldable pub create_tg_voip : Action
  unfolding create_tg_voip_for
  create_tg_voip (tg_call u) ctx = create_tg_voip_for u ctx
  create_tg_voip e ctx = no_meaning

  -- A null controller would be dereferenced.
  unfoldable pub bridge_audio : Action
  bridge_audio e ctx = elim ctx.controller [
    | none ↦ no_meaning
    | some c ↦ report_failure true ctx (Sip.bridge_audio o ctx.sip_call_id >> pure ctx)
  ]

  unfoldable pub dial_dtmf : Action
  dial_dtmf (tg_message m) ctx = elim m.content [
    | message_text digits ↦ catching (Sip.dial_digits o ctx.sip_call_id digits >> pure ctx) λ e.
        elim e [
          | pj_error reason ↦ pure ctx
          | runtime_error message ↦ throw (runtime_error message)
          | range_error ↦ throw range_error
        ]
    | other_content ↦ no_meaning
  ]
  dial_dtmf e ctx = no_meaning
