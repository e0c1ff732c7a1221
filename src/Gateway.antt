-- ===== src/Gateway.antt =====
-- tg2sip/gateway.h and gateway.cpp.
pub mod Context
pub mod Guards
pub mod Values
pub mod Actions
pub mod DialTg
pub mod Sml
pub mod Firing
pub mod Throws
pub mod Bridging
pub mod Rows
pub mod Machine
pub mod Process
pub mod Cache
pub mod CleanUp
pub mod Transitions
pub mod Progress
pub mod Extension
pub mod Flood
pub mod Contacts
pub mod Live
mod Tests
mod DialTests
mod LoopTests
pub mod Uncaught
pub mod Stray
pub mod Frame
pub mod Numbers
pub mod Schedule
