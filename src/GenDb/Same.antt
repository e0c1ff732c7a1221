-- ===== src/GenDb/Same.antt =====
-- tg2sip/gen_db.cpp beside tg2sip/tg.cpp: what the two clients send when TDLib waits for its
-- parameters.
use tg2sip_webrtc.Prelude.{ℕ, ◌+◌, ◌%◌, ◌^◌, ◌≡◌, refl, some, ◌∷◌, arith, nat_eq}
use tg2sip_webrtc.Settings.{Settings}
use tg2sip_webrtc.Tg.Parameters.{TdlibParameters, ProxyFunction, init_lib_parameters, init_proxy}
use tg2sip_webrtc.Tg.{Client, returned}
use tg2sip_webrtc.Tg
use tg2sip_webrtc.GenDb.{
  TdClient, set_proxy, set_tdlib_parameters, proxy_query, lib_parameters, process_response,
  process_update, on_authorization_state_update, on_state, send_query,
}
use tg2sip_webrtc.GenDb

-- The client of gen_db.cpp and the client of tg.cpp each take the update, return, and have sent the
-- same parameters and the same function for the proxy.
pub record SameRequests (settings : Settings) (c : TdClient) (t : Client) : Type 0 where
  pub d : TdClient
  pub u : Client
  pub parameters : TdlibParameters
  pub proxy : ProxyFunction
  pub gen_db_returns :
      process_response settings
        (record { id = 0; object = some (GenDb.authorization_update GenDb.wait_tdlib_parameters) })
        c
      ≡ some d
  pub tg_returns :
      Tg.process_response
        (record { id = 0; object = some (Tg.authorization_update Tg.wait_tdlib_parameters) })
        t
      ≡ returned u
  pub i : ℕ
  pub j : ℕ
  pub gen_db_sent : d.sent ≡ (i, set_tdlib_parameters parameters) ∷ (j, set_proxy proxy) ∷ c.sent
  pub m : ℕ
  pub n : ℕ
  pub tg_sent :
      u.sent
      ≡ (m, Tg.set_proxy (some proxy)) ∷ (n, Tg.set_tdlib_parameters (some parameters)) ∷ t.sent

-- `next_query_id`
abbrev next : ℕ → ℕ
next id = (id + 1) % 2 ^ 64

proxy_query-init_proxy :
    (settings : Settings) → proxy_query settings ≡ set_proxy (init_proxy settings)
unfolding proxy_query init_proxy
proxy_query-init_proxy settings = ground arith

lib_parameters-init_lib_parameters :
    (settings : Settings) → lib_parameters settings ≡ init_lib_parameters settings
unfolding lib_parameters init_lib_parameters
lib_parameters-init_lib_parameters settings = refl

-- When TDLib asks for its parameters, the database generator and a gateway's client that still has
-- the parameters made by its constructor send it the same parameters and the same proxy for the same
-- settings, in opposite orders.
pub process_response-SameRequests :
    (settings : Settings) (c : TdClient) (t : Client)
    → t.lib_parameters ≡ (Tg.new_client settings).lib_parameters
    → t.proxy ≡ (Tg.new_client settings).proxy
    → SameRequests settings c t
unfolding process_response process_update on_authorization_state_update on_state send_query
    Tg.process_response Tg.process_object Tg.process_update Tg.on_authorization_state_update
    Tg.send_query Tg.new_client
process_response-SameRequests settings c t parameters proxy = record {
  d = _;
  u = _;
  parameters = lib_parameters settings;
  proxy = init_proxy settings;
  gen_db_returns = refl;
  tg_returns = refl;
  i = next (next c.current_query_id);
  j = next c.current_query_id;
  gen_db_sent = rw (proxy_query-init_proxy settings) refl;
  m = next (next t.current_query_id);
  n = next t.current_query_id;
  tg_sent = rw (parameters, proxy, lib_parameters-init_lib_parameters settings) refl;
}
