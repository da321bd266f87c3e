-- ===== src/Examples.antt =====
-- Runs of the model at concrete states, and each theorem at an input that meets its hypotheses.
pub mod Host
pub mod Bitmaps
pub mod Files
pub mod Directories
pub mod Slices
pub mod Supers
pub mod Formats
pub mod Statistics
pub mod Modules
pub mod PageCache
pub mod Creations
