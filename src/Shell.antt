-- ===== src/Shell.antt =====
-- Command lines: toolsupport/shutil/split.go and toolsupport/ninjautil/shell_escape.go.
pub mod Runes
pub mod Split
pub mod Escape
pub mod Words
pub mod Quotes
pub mod Word
pub mod Trim
pub mod RoundTrip
pub mod Stray
mod Samples
