-- ===== src/Grpc.antt =====
-- pkg/grpc: the managed server and client. google.golang.org/grpc is a parameter: its options, servers,
-- listeners and connections are known by numbers.
pub mod Server
pub mod Client
