-- ===== src/Opts.antt =====
-- apis/opts and the settings that daemon/mgr/container_utils.go merges: the parsers of the options of a
-- container.
pub mod Env
pub mod Device
pub mod Bind
pub mod Policy
mod Tests
