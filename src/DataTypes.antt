-- ===== src/DataTypes.antt =====
-- pycomm3/cip/data_types.py: the CIP data types, their encoding and decoding.
pub mod Integers
pub mod Value
pub mod BitArrays
pub mod Types
pub mod Encode
pub mod Stream
pub mod Decode
pub mod RoundTrip
pub mod Typing
