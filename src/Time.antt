-- ===== src/Time.antt =====
-- The clocks of kernel/drivers/time.
pub mod Clock
