-- ===== src/Gateway/Uncaught.antt =====
-- tg2sip/gateway.cpp: `DialSip` where TDLib does not know the caller.
use tg2sip_webrtc.Outside.{Outside}
use tg2sip_webrtc.World.{World}
use tg2sip_webrtc.Settings.{Settings}
use tg2sip_webrtc.Gateway.Context.{Context}
use tg2sip_webrtc.Gateway.Sml.{Sml}
