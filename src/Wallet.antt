-- ===== src/Wallet.antt =====
-- contracts/wallet: the contract of a wallet account, which acts for a signer or for its extensions.
-- Its nonces, its requests and its authorizations are modules of their own.
pub mod Nonces
pub mod Requests
pub mod Contract
pub mod Calls
pub mod Auth
