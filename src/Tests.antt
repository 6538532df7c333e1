-- ===== src/Tests.antt =====
-- Examples: concrete repositories and databases, on which the theorems' hypotheses hold.
pub mod Storage
pub mod Service
pub mod Gateway
pub mod Admission
pub mod Net
pub mod Accounts
pub mod Config
pub mod EventLoop
pub mod Redis
pub mod Snapshots
pub mod Servers
pub mod Upstream
pub mod MySql
