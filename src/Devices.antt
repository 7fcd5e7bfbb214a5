-- ===== src/Devices.antt =====
-- The device plugin manager, crates/kubelet/src/resources: one child for each source file, and
-- one for each group of theorems.
pub mod Types
pub mod PodDevices
pub mod Manager
pub mod NodePatcher
pub mod Names
pub mod Allocate
pub mod Plugin
