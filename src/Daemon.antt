-- ===== src/Daemon.antt =====
-- daemon/MoneroDaemonRpc.ts: the ranges of blocks that are fetched in chunks.
pub mod Blocks
pub mod Polling
