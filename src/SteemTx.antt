-- ===== src/SteemTx.antt =====
-- oracle/go/steemtx: the transactions of Steem as the gateway's signers build them.
pub mod Authority
pub mod Asset
pub mod Encoding
pub mod Tests
