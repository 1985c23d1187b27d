-- ===== src/DataTypes/RoundTrip.antt =====
-- Encoding and decoding of pycomm3/cip/data_types.py together: the values that fit a type, and each
-- kind of type in a child module.
pub mod Leaves
pub mod Numbers
pub mod Structs
pub mod BitRows
pub mod Nested
pub mod Exact
