-- ===== src/Manifest.antt =====
-- The manifest parser of toolsupport/ninjautil: lines, chunks and statements, bindings and evaluation.
pub mod Lexer
pub mod Chunk
pub mod Pieces
mod Boundary
mod Respects
mod Loops
mod Sizes
mod Splitting
mod Refinement
mod Hang
mod Extents
mod Kept
pub mod Bindings
mod Latest
mod Shards
pub mod Rules
mod Duplicates
pub mod Eval
mod Templates
mod Expansion
mod Blanks
pub mod Paths
mod PathLists
pub mod Statements
mod BuildLines
mod Written
mod BuildTexts
mod Samples
