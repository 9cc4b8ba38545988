-- ===== src/HamiCore.antt =====
-- cmd/hami-kubelet-plugin/hami_core.go: the HAMi-Core manager, which gives a claim's container its
-- limits and its cache directory, and removes the directory when the claim is released.
pub mod Pods
pub mod Disk
pub mod Names
pub mod Edits
pub mod Release
pub mod Labels
pub mod Labelled
