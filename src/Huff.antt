-- ===== src/Huff.antt =====
-- Huffman coding of packets: huff/huffcode.cpp.
pub mod Node
pub mod Build
pub mod Device
pub mod Stream
pub mod Compress
pub mod Decompress
pub mod Modes
pub mod Coder
pub mod Samples
mod Runs
