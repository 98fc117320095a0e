-- ===== src/Data.antt =====
-- x/oracle/data: the price feed.
pub mod Tests
pub mod Median
pub mod Tally
pub mod Commit
