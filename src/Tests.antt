-- ===== src/Tests.antt =====
-- Runs of the code at concrete inputs, and the theorems at inputs that meet their hypotheses.
mod Drives
mod Disks
mod Heaps
mod Texts
mod Screens
pub mod Paths
mod Files
mod Pages
mod Mounts
mod Gates
mod Opens
mod Lookups
mod Walks
mod Kernels
mod Volumes
mod Boots
mod Starts
mod Leaks
mod Trees
mod Sessions
mod Overruns
