-- ===== src/Tests.antt =====
-- Concrete runs of the model, one module per part of the program.
mod DataTypes
mod Paths
mod Packets
mod Logix
mod Driver
mod Sockets
mod Utilities
mod Routes
mod Slc
mod Tags
mod TagUpload
mod Requests
mod CustomTypes
mod Templates
mod UserTags
