-- ===== src/Api.antt =====
-- crates/provider-api/src/lib.rs: what the API providers answer. The parser of JSON texts (serde_json)
-- and the transport over HTTP are parameters.
pub mod Sse
pub mod Chat
