-- ===== src/Validation.antt =====
-- daemon/mgr/container_validation.go: the validation of a container. Memory and Resource are the limits
-- of its resources, against what the control groups of the host support, Nvidia and Config are the rest, and the
-- other modules say what is accepted.
pub mod Core
pub mod Memory
pub mod Resource
pub mod Nvidia
pub mod Config
pub mod Bounds
pub mod Accepted
pub mod Limits
pub mod Settings
mod Tests
