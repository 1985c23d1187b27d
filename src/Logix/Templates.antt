-- ===== src/Logix/Templates.antt =====
-- The structures of a controller: `_get_structure_makeup`, `_read_template`, `_parse_template_data` and
-- `_get_data_type` of pycomm3/logix_driver.py.
pub mod Types
pub mod Names
pub mod Cache
pub mod Makeups
pub mod Reading
pub mod Fetch
pub mod Entries
pub mod Gathered
pub mod Described
pub mod Definitions
pub mod Complete
pub mod Parse
