-- ===== src/Bridge.antt =====
-- x/oracle/bridge: the Steem bridge.
pub mod Fixtures
pub mod Tests
pub mod Amounts
pub mod Facts
pub mod Memo
pub mod State
pub mod Power
pub mod Credit
pub mod Deposit
pub mod Expiry
pub mod Withdrawal
pub mod Ledger
pub mod Fields
pub mod Duty
pub mod Quota
pub mod Names
pub mod FeeSplit
