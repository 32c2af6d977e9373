-- ===== src/Lib.antt =====
-- A verification library of the nodalmerge CRDT core (core/crdt/src) and of its garbage collector
-- (core/gc/src).
--
-- The program. Peers share a graph of signed transactions. A peer writes with
-- `StateGraph::apply_local`, and admits what others send with `apply_remote_checked`, which checks
-- the hash, the clocks, the signature, the parents and the room's write policy before the node is
-- stored. Each admitted node is folded into the materialized views by `update_state_caches`: the
-- last-writer-wins map in a speculative and a canonical form, the ordered lists, the blob hashes
-- and, where it is enabled, a stream of conflict events. The leaves of the graph are mirrored in
-- the frontier, which peers exchange to find out what they miss; with an invertible Bloom filter they
-- find the ids that one has and the other lacks. `compact` turns a graph into a signed snapshot node,
-- from which `rebuild_from_snapshot` starts a new graph, and `replay` checks a set of nodes by building
-- a graph of them under a timeline of policies. Before a session, peers negotiate capabilities and show
-- a room token.
--
-- The files.
--   Base          lists, maps, byte order, priorities, sorting and loops that the others share
--   Op, Node      op.rs, text_range.rs (anchors), hash.rs, node.rs: what a transaction carries
--   Error         error.rs: `SyncError` and results
--   Policy        policy.rs: `can_write` and the glob matcher
--   FracIdx       list.rs: `between` and the base-62 positions
--   ListCrdt      list.rs `resolve_list_seq`, and graph.rs `update_list_cache`
--   Lww           graph.rs: `lww_update`, `resolve`, and the replay `resolve_replay`
--   Conflicts     conflicts.rs (types), and the conflict stream of graph.rs
--   Caches        graph.rs: `StateCaches` and `update_state_caches`
--   Storage       storage.rs: `MemoryNodeStore`
--   Frontier      frontier.rs: `advance` and `from_heads`
--   Graph         graph.rs: `StateGraph`, `insert_node`; Graph/Local `apply_local`; Graph/Remote
--                 `apply_remote_checked` and what it calls; Graph/Batch
--                 `apply_remote_batch_checked` and the batched signature check
--   Replay        replay.rs: the multi-pass replay, policy timelines and `canonical_hash`
--   Compaction    compaction.rs: `compact` and its variants; Compaction/Receive
--                 `verify_snapshot`, `rebuild_from_snapshot` and the packs
--   Ibf           ibf.rs: the filter, `subtract` and `decode`
--   Text          text.rs: `TextProjection`, its inserts, deletes and orphans; Text/Nodes what a node
--                 does, ranges, anchors and `resolve_text_seq`; Text/Index `CountedPositionIndex`
--   Mst           mst.rs: `from_ids`, `build_recursive` and `simulate_sync`
--   Gc            core/gc/src/coordinator.rs: `run_once` and its sweeps, over the five traits; Gc/Store
--                 server/server/src/gc_store.rs, `SqliteGcStore`
--   Capabilities  capabilities.rs: `intersect`
--   Token         token.rs: `sign`, `verify`, `token_message` and the hexadecimal form
--   Tests         runs at concrete inputs
-- Child modules hold the proofs, and are named for what they prove.
--
-- The correspondence. An operation on `&mut self` is a function from a state to a state, or to a
-- state and a result; an operation that returns early with an error returns what it has changed
-- so far. A fixed-size byte array (a hash, an author's key, an item's id) is its big-endian number,
-- so that its order is that of the array. Strings are lists of bytes. A hash map is a function
-- into options where only lookups matter, and a list of entries where the code iterates over it;
-- a map that is a function is listed, where the code goes through it, at the keys that operations write;
-- a hash set is a list whose order is not the program's, or its test. A panic is `none`. Clocks
-- saturate or wrap round at 64 bits where the code does. Loops are structural recursion, but for those
-- that count rounds: `Ibf.decode_loop` has the 320 rounds of its source; `Replay.retry_loop` has a round
-- for each node, which is enough since a round that goes on leaves fewer nodes
-- (`Replay.Rounds.loop-enough`); `Text.drain_loop` has one for each insert that waits and one more,
-- which is enough (`Text.Drains.drain_orphans_of-Drains`); the loops of `Text.Index` have one for each cell
-- of the tree, and each of their rounds goes to another cell; `Mst.build_recursive` counts down the 64
-- nibbles of a path, and `Mst.depth_loop` the 15 depths below the last.
--
-- Parameters. Postcard, Blake3 and Ed25519 are other crates: `Node.Crypto`, `Graph.Batch.BatchVerifier`,
-- `Compaction.ArchiveCodec`, `Ibf.IbfHash`, `Mst.MstHash` and `Token.SignatureScheme` stand for them, without any law
-- except where a theorem names one. The graph takes its text projections as a state of any type, with
-- the update that it calls as a function (`Graph.Env`). SQLite's failures, the live hashes and the pins
-- are parameters of `Gc.Store`, whose tables and objects change as its statements say.
--
-- Not modelled: `detect_conflicts`, the pending text ranges of the graph, the chunks in which a text
-- projection keeps its items, the wire form of the Merkle search tree, archive and lineage contracts, encryption and
-- blob storage, and the engine, servers, peers, bridges and clients but for the collector's store.
pub mod Base
pub mod Caches
pub mod Capabilities
pub mod Conflicts
pub mod Error
pub mod FracIdx
pub mod Frontier
pub mod Graph
pub mod Replay
pub mod Compaction
pub mod Ibf
pub mod ListCrdt
pub mod Lww
pub mod Node
pub mod Op
pub mod Policy
pub mod Storage
pub mod Text
pub mod Gc
pub mod Mst
mod Tests
pub mod Token
