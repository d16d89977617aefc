-- ===== src/Gateway.antt =====
-- LetDD, the gateway in front of LetDB: how its TCP client of LetDD/tcp talks to the server.
pub mod Uint128
pub mod Request
pub mod Response
pub mod Json
pub mod Supervisor
pub mod Client
pub mod Tests
