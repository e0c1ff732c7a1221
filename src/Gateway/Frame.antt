-- ===== src/Gateway/Frame.antt =====
-- tg2sip/gateway.cpp: what the gateway's thread leaves alone: the ids of the contexts, and the queues
-- that the other threads fill.
pub mod Rules
pub mod Steps
pub mod Dial
pub mod Machine
