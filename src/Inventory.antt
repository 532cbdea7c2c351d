-- ===== src/Inventory.antt =====
-- The claims on the seats.
pub mod Rooms
pub mod Claims
pub mod Capacity
pub mod Updates
