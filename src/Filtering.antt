-- ===== src/Filtering.antt =====
-- src/filtering.rs: the pixel filter and its inverse.
pub mod Prediction
pub mod Transpose
pub mod Planes
pub mod Block
pub mod Encode
pub mod Decode
pub mod Roundtrip
