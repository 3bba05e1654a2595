-- ===== src/HashMap/Removal.antt =====
-- `hashmap_remove` of hashmap.c: what it does to single entries, how it finds one, and the map that it
-- leaves.
pub mod Edit
pub mod Unlink
pub mod Walk
pub mod Fewer
pub mod Ends
pub mod Bridge
pub mod Found
