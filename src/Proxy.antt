-- ===== src/Proxy.antt =====
-- src/proxy.rs: the caching reverse proxy. The HTTP client and actix-web are outside: what they
-- answer is an argument, and what they are to send is a value.
pub mod Headers
pub mod Tee
pub mod Idle
pub mod Answer
pub mod Exchange
pub mod Serving
pub mod Waiting
pub mod Payload
pub mod Streaming
pub mod Forward
pub mod System
