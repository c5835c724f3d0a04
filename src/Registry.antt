-- ===== src/Registry.antt =====
-- app/registry.py: the endpoints of devices and the groups, and their lists.
pub mod Devices
pub mod Groups
pub mod Listing
pub mod Maintenance
