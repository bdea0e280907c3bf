-- ===== src/Tests.antt =====
-- The theorems of the other modules at concrete inputs, and the concrete functions that stand there for
-- the libraries.
mod SampleCodec
mod SampleInfo
mod SampleJwt
pub mod Wire
pub mod Cloud
pub mod Homes
pub mod Registration
pub mod Home
pub mod Videos
pub mod Start
pub mod Proxy
pub mod Heartbeat
pub mod Accounts
pub mod Server
