-- ===== src/Proxy.antt =====
-- src/proxy: the proxy process between the server and a debug adapter.
pub mod RequestTracker
pub mod Framing
pub mod Manager
pub mod MessageParser
