-- ===== src/Storage.antt =====
-- daemon/mgr/container_storage.go: the storage of a container. Services is what it calls, Mounts the mount
-- points that it collects (with Places and Binds), and Quotas the disk quotas of them.
-- Managed is all of it with the volume manager of daemon/mgr/volume.go.
pub mod Services
pub mod Places
pub mod Binds
pub mod Mounts
pub mod Quotas
pub mod Choice
pub mod Shared
pub mod Distinct
pub mod Replaced
pub mod Managed
mod Tests
