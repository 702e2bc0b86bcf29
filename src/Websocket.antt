-- ===== src/Websocket.antt =====
-- WebSocket (RFC 6455): src/net/websocket.cpp and include/apostol/websocket.hpp.
pub mod Frame
pub mod Parser
pub mod Connection
