-- ===== src/Depfile.antt =====
-- toolsupport/makeutil/deps.go: the depfiles that compilers write.
pub mod Tokens
pub mod Parse
pub mod Hang
pub mod Progress
pub mod Ends
mod Samples
