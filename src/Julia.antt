-- ===== src/Julia.antt =====
-- src/julia_wrap.cpp: the code that is pasted into the Julia REPL, the marker protocol by which its
-- output is found again, and the size limits on what is returned.
pub mod Marker
pub mod Literal
pub mod Code
pub mod Bootstrap
pub mod Lines
pub mod Extract
pub mod Overlap
pub mod Truncate
