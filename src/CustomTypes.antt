-- ===== src/CustomTypes.antt =====
-- pycomm3/custom_types.py: the types of Logix strings and structures.
pub mod Codecs
pub mod Encoding
pub mod Decoding
pub mod Buffers
pub mod Layout
pub mod Writing
pub mod BitMembers
pub mod Reading
pub mod RoundTrip
pub mod Blocks
