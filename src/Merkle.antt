-- ===== src/Merkle.antt =====
-- Merkle trees of reapi/merkletree: entries put in by their paths, and the digests of the directories.
pub mod Tree
pub mod Entries
pub mod Build
mod Linked
mod Listing
mod Setting
mod Sound
mod Subdirs
mod Building
mod Builds
mod Placed
mod Leading
mod Filed
mod Operations
mod Samples
