-- ===== src/Slc.antt =====
-- pycomm3/slc_driver.py: data files of SLC and MicroLogix controllers, with pycomm3/cip/pccc.py.
pub mod Patterns
pub mod Files
pub mod Expressions
pub mod Addresses
pub mod Values
pub mod Messages
pub mod Directory
