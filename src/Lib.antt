-- ===== src/Lib.antt =====
-- The core of the intents program with the contract that keeps its ledger, and of two contracts
-- beside it. How signed intents are checked and executed; how the changes of balances that they
-- ask for are collected as deltas, matched into transfers between accounts, and refused if they
-- do not match; the amounts, fees and checked arithmetic below; and the nonces that let an
-- intent run once. How the contract keeps accounts, supplies and salts, and moves tokens in,
-- out and between accounts. Then the wallet contract, with the resolver of the authorizations
-- that wallets give, and the escrow that swaps tokens.
--
-- Engine is contracts/defuse/core/src/engine/mod.rs: execute_signed_intents checks each payload
-- (execute_payload), commits its nonce and executes its intents, and ends with finalize.
-- Execute is the execution of the single intents of contracts/defuse/core/src/intents, whose
-- data is in Intents. State is the interface of contracts/defuse/core/src/engine/state/mod.rs,
-- a record of the methods that an implementation gives; the engine works over any such record.
-- Deltas is the state of contracts/defuse/core/src/engine/state/deltas.rs that wraps another
-- and records what it adds and takes. Deltas/Tracks, Engine/Conserves and Engine/Balances
-- follow the balances of the wrapped state through these layers; IsLedger and IsQuiet there say
-- what is asked of it: that adding and taking one amount changes that balance alone, and that
-- keys, nonces and notifications change none.
--
-- TransferMatcher of contracts/defuse/core/src/engine/state/deltas.rs is in Matcher: deposits
-- and withdrawals without a counterparty are netted for each account and token (deposit,
-- withdraw, sub_add), and finalize turns what is left into transfers (match_loop) or into
-- unmatched deltas. Matcher/Net, Matcher/Change, Matcher/Sort, Matcher/Loop, Matcher/Finalize,
-- Matcher/Round and Matcher/Settle hold the proofs, Matcher/Flow what an account sends and
-- receives in all.
--
-- Below it, Amounts is contracts/defuse/core/src/amounts.rs, MapUtils is the map of
-- crates/map-utils/src/cleanup.rs whose entries vanish at the default value, NumUtils is
-- crates/num-utils, Fees is crates/primitives/fees, TokenId is crates/primitives/token-id, and
-- TokenDiff is the arithmetic of contracts/defuse/core/src/intents/token_diff.rs. Bitmap is
-- crates/bitmap/src/b256.rs and Nonce is contracts/defuse/core/src/nonce. Error has the errors
-- and the outcome of a call.
--
-- Wallet is contracts/wallet: Wallet/Nonces the two windows of nonces (nonces.rs), over the bit
-- map of words of crates/bitmap/src/lib.rs (WordBitmap); Wallet/Requests what a wallet is asked
-- to do; Wallet/Contract the operations of contract.rs, execute_signed and execute_extension at
-- their top; Wallet/Auth its resolve_auth. Wallet/Calls puts calls at times that do not
-- decrease into a sequence, to which the nonces answer with Wallet/Nonces/Replay, and when a
-- nonce is available with Wallet/Nonces/Available. The signature schema, the hash of a message
-- and the JSON parser are parameters.
--
-- Nep641 is crates/signatures/nep641: the resolver asks an account for an authorization and
-- then, in any order, all the accounts that this one waits for. Nep641/Resolver is the loop of
-- resolve_auth, for any schedule of the answers, whose rounds are bounded by the number of
-- sub-authorizations that are allowed; Nep641/Resolver/Tree says what a resolved tree is in
-- terms of the loop, and Nep641/Resolver/Answered in terms of the answers of the accounts. The
-- access to a node is a parameter.
--
-- Escrow is contracts/escrow-swap: Escrow/Fill a taker's fill with its fees (contract/fill.rs;
-- Escrow/Fill/Charges says what fees are due), Escrow/Settle the other changes of the state
-- (fund.rs, close.rs, lost_found.rs, resolve.rs and tokens/mod.rs), Escrow/Life the methods of
-- the contract with the cleanup of cleanup.rs, and the relation of all that can happen to an
-- order, in which each callback that was left pending runs once; Escrow/Life/Accounts,
-- Escrow/Life/Refunds and Escrow/Life/Invariant follow the tokens through it. Decimal is the
-- price, UD128 of crates/primitives/decimal. The hash of parameters and the JSON parser are
-- parameters, and what became of a transfer is an input of the callback.
--
-- Contract is the storage of contracts/defuse/src/contract with its accounts, and what it reads
-- of them. Contract/Core is its implementation of State (intents/state.rs, and accounts/mod.rs
-- for the flag of an account), which Contract/Ledger sets against what the engine asks of a
-- state. Contract/Tokens is tokens/mod.rs: deposit, withdraw and resolve_deposit_internal,
-- followed by Contract/Books, Contract/Refunds, Contract/Supply, Contract/Burns and
-- Contract/Resolve; Contract/Transfers is tokens/nep245/core.rs and resolver.rs, followed by
-- Contract/Moves, Contract/Transferred, Contract/Settled and Contract/Resolved;
-- Contract/Withdrawals is withdraw.rs of nep141, nep171 and nep245, and Contract/Refunded
-- follows a withdrawal to its refund. IsBacked in Contract/Supply says that every total supply
-- is the sum of the balances. Account is accounts/account, with Account/Keys and Account/Used;
-- Salts is state/salt_registry.rs and salts.rs; Lock is contracts/defuse/core/src/lock.rs;
-- Events is crates/near/nep245, of which it needs the lengths of refund events; TokenId/Text is
-- the text of a token id. SHA-256, the seed of a block, the ids of accounts, the length of a
-- log and the result of a promise are parameters. A promise is the list of its calls, kept in
-- the order in which they are scheduled.
--
-- Cached is the overlay of contracts/defuse/core/src/engine/state/cached.rs, on which intents
-- are simulated: what it reads, and how balances change in it. The view below it is a
-- parameter.
--
-- Maps are lists of entries with distinct keys, in the order in which they are iterated.
-- Numbers are unbounded, and each bound of a u32, u128 or i128 is a test in the operation that
-- checks it. The loop of finalize_into runs on fuel, one more than there are senders and
-- receivers: each round uses up one of them. The rounds of the resolver are one more than the
-- sub-authorizations that are allowed, each of which takes one, where that limit is below the
-- largest usize, at which the saturating count never passes it. The loop that strips the zeros
-- of a decimal runs at most as often as there are decimals. The products of two 128-bit
-- numbers, 256 bits wide in the bnum crate, are exact. A panic is the value none, or an error
-- of its own. An error or a panic loses the state, as a failed call of the contract does.
--
-- Not modelled: signatures and payload formats, serialization, the emission of events, what
-- happens inside a promise, roles and pauses and the public methods of the contract that check
-- them, the migration of older storage, the access of the resolver to a node, the rest of what
-- a simulation does as a State, and the other contracts of the repository.
pub mod Prelude
pub mod MapUtils
pub mod NumUtils
pub mod Fees
pub mod TokenId
pub mod Amounts
pub mod Matcher
pub mod TokenDiff
pub mod Bitmap
pub mod Error
pub mod Nonce
pub mod Intents
pub mod State
pub mod Deltas
pub mod Execute
pub mod Engine
pub mod WordBitmap
pub mod Wallet
pub mod Nep641
pub mod Decimal
pub mod Escrow
pub mod Cached
pub mod Lock
pub mod Events
pub mod Salts
pub mod Account
pub mod Contract
pub mod Tests
