-- ===== src/Server.antt =====
-- core/server.go: the state of the zipper's server and the handshake. The connector is that of
-- core/connector.go; the router is any implementation of the interface (Server/Routers.antt).
pub mod Routers
pub mod State
pub mod Handshake
pub mod Frames
pub mod Loop
pub mod Threads
