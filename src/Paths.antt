-- ===== src/Paths.antt =====
-- The CIP path segments of pycomm3/cip/data_types.py, EPATH, and the request paths of
-- pycomm3/packets/util.py.
pub mod Segments
pub mod Requests
pub mod ReadBack
pub mod TagPaths
pub mod Reader
