-- ===== src/Gateway.antt =====
-- The client, package main of gateway/: which cluster and which leader a transaction goes to, how
-- replies are counted, and when a transaction is sent again.
pub mod Input
pub mod Servers
pub mod Routing
pub mod Replies
pub mod Execution
pub mod Latency
pub mod Menu
pub mod Startup
