-- ===== src/Lib.antt =====
-- A model of the core of qwertycoin-ts, the TypeScript client of Qwertycoin daemons and wallets: how
-- it schedules asynchronous work, how it keeps and chooses connections to RPC servers, and how it
-- merges and tests values. All paths below are under src/main/ts.
--
-- The parts and their files:
-- * ThreadPool.antt, the pool of common/ThreadPool.ts. The linked list of queued tasks is a list; a
--   task or listener is a number. What a call starts or notifies is its list of effects.
--   ThreadPool/Invariant.antt has every sequence of submissions, settled tasks and waits, and
--   ThreadPool/Progress.antt what happens once all tasks have settled.
-- * TaskLooper.antt, the looper of common/TaskLooper.ts. An activation of `_runLoop` awaits its task
--   (`running`) or sleeps (`timers`); the code between two awaits is one definition.
--   TaskLooper/Invariant.antt has the step relation, TaskLooper/Quiet.antt a stopped looper and
--   TaskLooper/Alive.antt a started one.
-- * RpcConnection.antt, the configuration, the credentials, the request and the check of
--   common/MoneroRpcConnection.ts. The reply of the HTTP client and the clock are arguments.
--   RpcConnection/Laws.antt is about these, RpcConnection/Requests.antt has JSON and path requests.
-- * ConnectionManager.antt, the manager of common/MoneroConnectionManager.ts. It uses a heap of
--   connection objects, so that two variables that hold one object share it. `addConnection` is
--   that of a connection object, `setConnection` has all its kinds of arguments.
--   ConnectionManager/Uris.antt, Invariant.antt, Operations.antt and Runs.antt are about the list
--   of connections; Priority.antt and its children about the order by priority; Responses.antt and
--   its children about the choice of the best connection. Sorting.antt has `getConnections`,
--   with the sort in Sorting/Sorted.antt and the order that is promised in Sorting/Order.antt.
--   Refinement.antt has a map from URIs to connections as the specification of the manager, with
--   the lookups in Lookup.antt, each call in Steps.antt and sequences in Simulation.antt.
--   Checks.antt has the rounds of checks, where the answers and the order in which the checks settle
--   are arguments; of its children, Current.antt has `checkConnection`, and Switch.antt,
--   Available.antt, Related.antt, Rounds.antt, Tried.antt, Switching.antt and Whole.antt show what they leave.
--   Polling.antt has `startPolling`, `stopPolling` and `reset` over loopers of TaskLooper.antt.
-- * GenUtils.antt, functions of common/GenUtils.ts, each group in a child: Arrays.antt (`remove`),
--   Unique.antt (`toUniqueArray`), PowerSet.antt (`getPowerSet` to `getCombinations`), Strings.antt
--   (`isHex`, `isBase32`, `isBase58`, `normalizeUri`) and Reconcile.antt (`reconcile`).
-- * Queries.antt, `meetsCriteria` of wallet/model/MoneroTxQuery.ts, MoneroOutputQuery.ts and
--   MoneroTransferQuery.ts: single criteria in Queries/Criteria.antt, transfers and the queries of
--   children in Queries/Transfers.antt. What a query accepts is in Queries/Laws.antt,
--   Queries/Transfers/Laws.antt and Queries/Transfers/Children.antt.
-- * Merge.antt, `merge` of daemon/model/MoneroTx.ts, MoneroOutput.ts and MoneroKeyImage.ts, from
--   where the blocks have been compared. Merge/Inputs.antt has the inputs and outputs of a
--   transaction. Merge/Fields.antt, Merge/Rules.antt and Merge/Status.antt are about its
--   fields, with GenUtils/Reconcile/Described.antt, and Merge/Inputs/Keys.antt about its inputs.
-- * PaymentIds.antt and Keys.antt, payment ids, keys and unlock times of common/MoneroUtils.ts.
-- * Daemon.antt, parts of daemon/MoneroDaemonRpc.ts. Daemon/Blocks.antt has the ranges of blocks that
--   are fetched in chunks; its children are about the cache of headers (Cache.antt), one chunk
--   (Chunk.antt) and all chunks (Chunked.antt). Daemon/Polling.antt has the class `DaemonPoller` and
--   the listeners of the daemon; its children are about the announced headers (Announced.antt), the
--   listeners that are called (Notified.antt) and the looper of the poller (Listening.antt).
-- * TxExtra.antt, `getLastTxPubKey` of common/MoneroUtils.ts, with the fields of an extra in
--   TxExtra/Fields.antt.
-- * WalletPoller.antt, the class `WalletPoller` of wallet/MoneroWalletRpc.ts, whose poll takes the
--   answers of the wallet and appends to a log of announcements. Announcements.antt and Blocks.antt
--   are about the announced blocks, Quiet.antt, Settled.antt and Repeat.antt about repeated polls.
--   Guard.antt has the polls that run or wait in a pool of ThreadPool.antt, where a poll counts itself
--   down before its task ends.
-- * WalletRpc.antt, other parts of wallet/MoneroWalletRpc.ts. WalletRpc/Requests.antt has the
--   parameters that `getTransfersAux` sends and `decodeRpcType`; Flags.antt, Named.antt and Covers.antt
--   compare them with the queries, Errors.antt and Refused.antt are about queries that are refused.
--   WalletRpc/Accounts.antt has the accounts and subaddresses with the cache of addresses, its child
--   Converted.antt the replies, Merges.antt the cache and the merging of balances; Balances.antt and
--   Unlocks.antt are about balances, Entries.antt, Coherent.antt, Addresses.antt and Answers.antt
--   about the cache and `getAddress`. The server is a record of functions.
-- * Worker.antt, the calls to the web worker of common/LibraryUtils.ts and what the worker of
--   common/QwertycoinWebWorker.ts posts back. A call is a number. Worker/Calls.antt has the steps in
--   any order, Worker/Replies.antt a call and its reply, Worker/Errors.antt the errors, which are told
--   apart by the classes that common/MoneroRpcError.ts and the worker know.
-- * Common.antt and its children, shared by all: lists, texts, results, Boolean tests.
-- * Tests.antt and its children, the theorems at concrete inputs.
--
-- How the parts meet: a connection normalizes its URIs with GenUtils/Strings.antt, a manager
-- removes connections with `remove` of GenUtils/Arrays.antt and asks a connection whether it is
-- connected; it polls with a looper of TaskLooper.antt and checks connections with the check of
-- RpcConnection.antt. The polls of a wallet go through a pool of ThreadPool.antt. The lists of
-- heights of Daemon/Blocks.antt are those of the blocks that a wallet's poller announces. The poller
-- of a daemon has a looper of TaskLooper.antt. The request of WalletRpc/Requests.antt is built from the
-- queries of Queries.antt, which then filter the reply.
--
-- Conventions: a JavaScript string is a `Text`, the list of its code units; a number is a natural
-- number, so negative numbers, fractions and NaN are outside the model; undefined is `none`; a
-- function that can throw returns a `Result`. Loops are structural recursions, on a list or on the
-- number of rounds that are left. Four loops have fuel: for that of `getBlocksByRangeChunked` a
-- round for each block of the range is enough, since each chunk has a block, and for that of
-- `getLastTxPubKey` one for each byte. `getAddress` calls itself once at most, so two calls are enough,
-- and the loop of `announceBlockHeader` runs over an array that only shrinks, so its length is enough.
--
-- Not modelled: the request queues of a connection, the attributes of a connection, and what other
-- code does while a listener of the manager is awaited; other requests of the wallets and the daemon,
-- which call native code or a server, and the conversion of their replies; data classes that only hold
-- fields; and the start of the web worker with the functions in it, HTTP and file access.
-- `assert.deepEqual`, `JSON.parse`, `JSON.stringify` and `localeCompare` are parameters.
pub mod Common
pub mod ThreadPool
pub mod TaskLooper
pub mod GenUtils
pub mod RpcConnection
pub mod ConnectionManager
pub mod Daemon
pub mod Keys
pub mod Merge
pub mod PaymentIds
pub mod Queries
pub mod TxExtra
pub mod WalletPoller
pub mod WalletRpc
pub mod Worker
pub mod Tests
