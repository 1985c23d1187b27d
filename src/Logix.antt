-- ===== src/Logix.antt =====
-- pycomm3/logix_driver.py: how tag requests are put into packets and how long values are moved in
-- pieces, with the packets of pycomm3/packets/logix.py that this needs.
pub mod Grouping
pub mod Fragments
pub mod Messages
pub mod BitWrites
pub mod TagRequests
pub mod Results
pub mod Requests
pub mod Symbols
pub mod TagUpload
pub mod Templates
pub mod UserTags
