-- ===== src/Home.antt =====
-- internal/home: the private server.
pub mod FilePath
pub mod Disk
pub mod Scanner
pub mod Server
pub mod Converting
pub mod Running
pub mod Client
pub mod Start
pub mod Connecting
