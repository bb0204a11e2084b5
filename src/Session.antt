-- ===== src/Session.antt =====
-- src/session: the state of debug sessions.
pub mod OutputBuffer
pub mod VariableCaps
pub mod States
pub mod Store
pub mod Events
pub mod Close
