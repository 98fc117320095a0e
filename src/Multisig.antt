-- ===== src/Multisig.antt =====
-- oracle/go/multisig: the automated signers of the gateway account.
pub mod Apportion
pub mod Payout
pub mod Journal
pub mod Policy
pub mod Tests
