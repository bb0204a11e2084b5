-- ===== src/DapCore.antt =====
-- src/dap-core: the functional core that turns messages of the proxy process into commands and a
-- new session state.
pub mod State
pub mod Handlers
pub mod Session
pub mod Pending
pub mod Lifecycle
pub mod Tests
