-- ===== src/Cloud.antt =====
-- internal/cloud: the public server.
pub mod Cache
pub mod Connection
pub mod Comments
pub mod Users
pub mod Server
pub mod Start
pub mod Tokens
pub mod Stats
pub mod HomeKeys
pub mod QuicServer
pub mod Access
pub mod HomeManager
pub mod DataRequest
pub mod StreamProxy
pub mod Avatar
