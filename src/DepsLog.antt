-- ===== src/DepsLog.antt =====
-- toolsupport/ninjautil/deps_log.go: ninja's deps log, its file format, its reader and its writer.
pub mod State
pub mod Reader
pub mod Writer
pub mod Codec
pub mod Rounds
pub mod Update
pub mod Reads
pub mod Mirror
pub mod Interning
pub mod Recording
pub mod Reopen
pub mod Sessions
pub mod Visibility
mod Samples
