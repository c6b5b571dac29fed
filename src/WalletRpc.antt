-- ===== src/WalletRpc.antt =====
-- wallet/MoneroWalletRpc.ts: the requests for transfers, the order of its results, its accounts and
-- its cache of addresses. Its poller is modelled apart.
pub mod Requests
pub mod Accounts
