-- ===== src/Http.antt =====
-- pkg/http: the server and the client.
pub mod Server
pub mod Client
mod Tests
