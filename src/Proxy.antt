-- ===== src/Proxy.antt =====
-- pgcluster/src/proxy: what a client connection may do, and where its statements go.
pub mod Session
pub mod Router
pub mod Limits
pub mod Pool
pub mod Wire
pub mod Statement
pub mod Connection
