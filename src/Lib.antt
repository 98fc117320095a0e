-- ===== src/Lib.antt =====
-- The Steem Virtual Machine: models of the two duties of its validators, the price feed and the Steem
-- bridge, and of the engine that slashes for both.
--
-- How the parts interact. Validators commit to exchange rates and reveal them (x/oracle/data); once
-- for each vote period the end blocker takes the median of each pair and reports who voted in band.
-- Validators attest Steem transfers to the gateway (x/oracle/bridge); the chain credits a deposit once
-- enough bonded power has voted for one set of facts, burns what users bridge out, and refunds what is
-- not paid out on Steem in time. x/oracle counts the opportunities and hits of both duties, and at the
-- end of a window slashes and jails.
--
-- Files, and what they model:
--   Prelude      shared names: Boolean tests, lists, keys, maps and key sets, results
--   Text         the functions of Go's strings package that the code calls
--   Decimal      LegacyDec of cosmossdk.io/math, scaled by 10^18, rounding a parameter
--   Oracle/Eval  x/oracle/types/eval.go: EvaluateValidatorWindow
--   Oracle/Duty  x/oracle/keeper/tally.go: RecordPriceParticipation, RecordBridgeEvent
--   Oracle/Window  x/oracle/keeper/abci.go: EndBlock, evaluateWindow, slashAndJail
--   Data/Median  x/oracle/data/keeper/abci.go: weightedMedian and the sort before it
--   Data/Tally   x/oracle/data/keeper/abci.go: EndBlocker, TallyExchangeRates
--                (Votes reads the votes from the store alone, which the tally is compared with)
--   Data/Commit  x/oracle/data: AggregateExchangeRatePrevote, AggregateExchangeRateVote, vote.go
--   Bridge/Amounts, Facts, Memo, Fields  x/oracle/bridge/types: units and fee, fact encoding and
--                hashes, destinations, field checks
--   Bridge/State   the keeper's collections, the records, and the modules that it calls
--   Bridge/Power   x/oracle/bridge/keeper/power.go
--   Bridge/Credit  creditBridged of deposit.go
--   Bridge/Deposit  AttestDeposit, ValidateDepositAcceptance, resolveDeposit
--   Bridge/Withdrawal  BridgeOut, AttestWithdrawalPayout and its acceptance check
--   SteemTx/Authority, Asset  oracle/go/steemtx/encoding.go: authorities, amounts as text
--   SteemTx/Encoding  the same file: Writer, the binary form of operations; Reader is written from
--                Steem's format, and Content says what an operation means
--   Multisig/Apportion  oracle/go/multisig/apportion.go: Apportion, ExceedsTolerance
--   Multisig/Payout     oracle/go/multisig/chain.go: PayoutOps, PayoutOf and the link between them
--   Multisig/Journal    oracle/go/multisig/journal.go; Passes takes the votes, the proposals and the
--                prunes of signer.go as steps
--   Multisig/Policy     oracle/go/multisig/policy.go: payoutFacts, reviewTransfer
--   Bridge/Expiry  ExpireDeposits and RefundExpiredWithdrawals of abci.go
--   Bridge/Duty    x/oracle/bridge/keeper/oracle_report.go: FlushBridgeDuty, which feeds Oracle/Duty
--   Bridge/Quota   x/oracle/bridge/keeper/ante.go: the free messages of one block
--   Bridge/Names   the name service: Registration (SubmitNameRegistration and its acceptance check),
--                Linking (ConfirmName, ResolveName), Expiry (ExpireNameRegistrations), and System,
--                which takes them as steps
--   Bridge/FeeSplit  x/oracle/bridge/keeper: feesplit.go and blackhole.go
--   Bridge/Ledger  the handlers and sweeps as steps of one transition system, and its invariant
-- The children of a component (Laws, Creation, Payout, Freed and others) hold proofs; Tests and
-- Fixtures hold concrete runs.
--
-- State is passed explicitly: a handler takes the store and returns the new store or an error, on
-- which its writes are discarded. Walks over a map follow the association list; where the order
-- matters, in the sweeps, the numbers are sorted. Counters are natural numbers, and a uint64 sum or
-- product that can wrap has its reduction written out; the conversion of the duty counters to int64
-- has its sign. Loops are structural recursions, and a sweep
-- takes 1000 records of its index as the source does. The one loop that could run for ever, in
-- Apportion, has fuel 2 for each row, which is enough: a row that is given a weight keeps it. A number
-- is printed with 20 digits at most, which is enough for 64 bits; a varint of 32 bits has 5 bytes at
-- most.
--
-- Parameters: staking, bank, the address codecs, SHA-256, decimal rounding and decimal parsing are
-- code of other packages, arguments of the definitions here. Their documented behaviour stands in
-- Rounds, BankLaws, CoinsLaws, TotalCovers and Reliable, which the concrete half_up, the bank and
-- context of Bridge/Fixtures, the keeper of Bridge/FeeSplit/Tests and that of Oracle/Tests meet.
--
-- Not modelled: events, log lines and most queries; store read errors other than a missing key; the
-- fee exemption's decorator, validator identities and the genesis of the bridge; of the gateway's
-- signer the reviews of other proposals, the choice of what to propose and the ballots; the envelope,
-- the JSON form and the signing of Steem transactions; the relayer; the EVM precompiles; the application's wiring; the generated code but for its records.
pub mod Prelude
pub mod Text
pub mod Decimal
pub mod Bridge
pub mod Oracle
pub mod Data
pub mod SteemTx
pub mod Multisig
