-- ===== src/Network.antt =====
-- The network layer of LetDB: LetDB/include/let/network and LetDB/src/network.
pub mod Request
pub mod Response
pub mod Server
pub mod Tests
