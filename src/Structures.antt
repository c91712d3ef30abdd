-- ===== src/Structures.antt =====
-- kernel/structures and include/kernel/structures.
pub mod Fifo
pub mod HashMap
pub mod NodeList
pub mod UniqueHashMap
pub mod Bitmap
