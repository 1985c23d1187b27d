-- ===== src/Driver.antt =====
-- pycomm3/cip_driver.py: the session and the connection that a driver keeps, and the paths that say
-- where the target is.
pub mod Session
pub mod Routes
