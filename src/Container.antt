-- ===== src/Container.antt =====
-- daemon/mgr: the state of a container, the manager's tables, and the operations on a container's
-- life.
pub mod State
pub mod Manager
pub mod Lifecycle
pub mod Operations
mod Tests
