-- ===== src/Util.antt =====
-- src/core/util.cpp: hashing of text files, hexadecimal text and the framing of compressed data.
mod Tests
pub mod Normalize
pub mod Hex
pub mod Compress
pub mod SqlText
