-- ===== src/Drivers.antt =====
-- The drivers of kernel/drivers whose code is more than input and output.
pub mod Slice
