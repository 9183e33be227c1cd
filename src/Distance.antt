-- ===== src/Distance.antt =====
-- toolsupport/ninjautil/edit_distance.go: the distance that spelling suggestions are ranked by.
pub mod Rows
pub mod Edits
pub mod Least
pub mod CutOff
pub mod Spelling
mod Samples
