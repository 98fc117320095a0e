-- ===== src/Oracle.antt =====
-- x/oracle: the unified slashing engine that both duty modules report into.
pub mod Tests
pub mod Eval
pub mod Duty
pub mod Window
