-- ===== src/Executor.antt =====
-- The executor, internal/controller/executor: the queue of requests and the workers that serve it, and
-- what a worker does for a request.
pub mod Manager
pub mod Workers
pub mod Queue
pub mod Cluster
pub mod Fetch
pub mod Lua
pub mod Scripts
pub mod Actions
pub mod Services
pub mod Secrets
pub mod Notify
pub mod Store
pub mod Process
pub mod Turn
