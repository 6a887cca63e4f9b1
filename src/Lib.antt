-- ===== src/Lib.antt =====
-- redisson-rs, a Redis client library in the manner of Redisson. Paths are from the repository's root.
--
-- The parts and how they meet. A user has the settings of redisson-rs/src/config/mod.rs converted
-- (`try_from`) and the fred client configured from them (Config). Commands
-- (redisson-rs/src/client/protocol/redis_command.rs, Command.RedisCommand) go to the servers one by one
-- through a pool (`execute`, Command.Execute), or are gathered in a batch
-- (redisson-rs/src/command/command_batch_service.rs, Command.Batch), which asks the connection
-- manager for the node of each (`get_write_entry`, Connection, which is
-- redisson-rs/src/connection/fred_connection_manager.rs). Subscriptions and their messages
-- are the business of redisson-rs/src/pubsub/publish_subscribe_service.rs (PubSub), which matches
-- patterns by Glob. Renewal.LockEntry is the record of who holds a lock
-- (redisson-rs/src/renewal/lock_entry.rs).
--
-- What stands for what. A struct is a record, an enum a data type, each with the source's names in
-- snake case; a HashMap or DashMap is an association list (Base.Assoc), and where its order of
-- iteration could matter it is a parameter that only has to be a permutation (`World.node_order`).
-- A Result is Base.Results. A `usize` wraps at 2 ^ 64 and a `u32` at 2 ^ 32 (Base.Int), as in a
-- release build; an `i64` is an integer without bounds, since the program only adds small counts of
-- slaves; a Duration is its milliseconds.
-- An async function is split where it waits, or has the answers as a parameter; its state and what
-- it sent are passed along. The fred client is such a parameter: the answers of the servers to a
-- request after those before it (`Pool`, `Link`), which client of the pool comes next (`Link.next`),
-- the answers of a pipeline, the key slots and the routing table (`World`, `Topology`). A oneshot
-- channel is a number, and what is sent on it a delivery.
--
-- The service of commands and scripts (redisson-rs/src/command/command_async_service.rs,
-- Command.Async) stands on all of these: `async0` and the client-side caches, `eval_async` and the
-- hashes of scripts, `synced_eval` (Command.Async.Synced, its loop Command.Async.Rounds) which asks
-- a node what it supports (Command.Async.Probe), reads its INFO (Command.Async.Info) and runs a
-- script through a batch. What is remembered of the nodes is Connection.ServiceManager
-- (redisson-rs/src/connection/service_manager.rs). PubSub.Topic is the pattern topic
-- (redisson-rs/src/api/rpattern_topic.rs), PubSub.RedissonLockEntry the entry on which tasks wait for
-- a lock (redisson-rs/src/pubsub/redisson_lock_entry.rs).
--
-- Redisson is the construction of a client (redisson-rs/src/redisson.rs and `create` of
-- redisson-rs/src/connection/fred_connection_manager.rs): the settings of its two fred clients, the
-- steps in order, and what each failure leaves.
--
-- Overlapping calls. Outside cluster mode, calls of `psubscribe` and `remove_listener` on one service
-- are a schedule of actions (PubSub.Tasks): a task runs from wait to wait with no other between, as on
-- a runtime with one thread, the server reads the requests in the order of their sending, and answered
-- tasks go on in any order. The requests to the nodes of a cluster are in PubSub alone, for calls that
-- do not overlap. PubSub.Tasks.Removal splits one turn of `remove_listener` where another thread can
-- come between. Command.Batch.Life is everything that may be called on one batch, in any order, also
-- after its end.
--
-- Termination. All loops are structural but the one of `synced_eval`, which runs on fuel: 2 is
-- enough, since the flag that lets it go round again is set in the first round. The retries of
-- `resolve_entry` count down from their number.
--
-- Scripts. Command.Async.Scripting says what the servers are taken to do with scripts (`IsScripting`):
-- a script may fail and may depend on all that was sent before, SCRIPT LOAD may fail and reaches only
-- the node that it is pinned to, and no one else flushes the scripts of a node in between.
--
-- Two tasks. `synced_eval` queues its script in one task and executes the batch in another. Which
-- came first is an argument (`queued_first`); a channel on which nothing will be sent makes the
-- call an outcome of its own (`waits_forever`).
--
-- Left out: logging; the lagging of fred's message channels; a task of a failed batch that had
-- already sent to its callers when it was aborted; a pipeline's queueing of a command, which fred
-- answers at once; a key that is not UTF-8, which the client-side caches are not told of; the panic
-- of the task in `synced_eval`. The LRU cache of script hashes is a parameter with the laws that
-- its crate documents; a set of hashes for each node is kept as pairs. Not modelled are `shutdown`,
-- which only has fred close the pool, `create_command_executor`, which is unimplemented, the methods
-- of `ChannelName` that nothing uses, `NodeSource`, which nothing uses
-- (redisson-rs/src/connection/node_source.rs), and the files that are commented out.
pub mod Base
pub mod Command
pub mod Config
pub mod Connection
pub mod Glob
pub mod PubSub
pub mod Redisson
pub mod Renewal
