-- ===== src/Voip.antt =====
-- tg2sip/voip: the ntgcalls backend.
pub mod MediaPorts
pub mod Controller
pub mod Ports
pub mod Runtime
