-- ===== src/Cri.antt =====
-- cri/v1alpha2: how the CRI service stands for sandboxes and containers of Kubernetes in names, labels
-- and settings of containers, and reads them back.
pub mod Names
pub mod Labels
pub mod Resources
pub mod Security
pub mod Config
pub mod Convert
pub mod Lists
mod Tests
