-- ===== src/Lib.antt =====
-- The key-value store of this repository, replicated by a modified OmniPaxos that orders commands
-- by deadlines of synchronised clocks, with a proxy that counts the servers' acknowledgements.
--
-- The parts, and how they interact:
--
-- A client sends a command to the proxy (src/proxy), which sends it on to every server. A server
-- (src/server) gives the command a deadline of its clock and appends it to its replica. The replica
-- (crates/custom-paxos/omnipaxos/src/sequence_paxos) puts it into deadline buffers, which release it
-- to the log once the clock has passed its deadline; then an acknowledgement with the hash of the
-- log goes back to the proxy. On a quorum of acknowledgements of one hash, of which one carries the
-- leader's speculative result, the proxy confirms the command to all servers, which decide it.
--
-- Prelude and its children are the shared helpers: lists over native numbers, maps as association
-- lists, heaps by a key, and the wrapping arithmetic of machine words. Request is the interface that
-- the buffers ask of an entry, with its laws; `Common.command_request` fills it for the program's
-- commands, whose data types are in Common (src/common.rs).
--
-- Ballot and Election model crates/custom-paxos/omnipaxos/src/ballot_leader_election.rs: the ballots
-- with their order, and the heartbeat rounds of `BallotLeaderElection`. Messages models messages.rs
-- beside it. Config models the configurations and `validate` of omni_paxos.rs, and the quorums of
-- util.rs. Clock models clock.rs, with the coin of the random drift as an argument of a tick. Buffers
-- models buffers.rs. Storage models storage/mod.rs, Storage/Cache storage/state_cache.rs,
-- Storage/Internal and its children storage/internal_storage.rs. Of
-- crates/custom-paxos/omnipaxos_storage/src, Storage/Memory models memory_storage.rs, which the servers
-- use, and Storage/Persistent with its children persistent_storage.rs: RocksDB and the serializations
-- are parameters (`RocksDb`, `Codecs`), with what is relied on of them in Storage/Persistent/Contents
-- (`IsRocksDb`, `IsFaithful`).
--
-- SequencePaxos models sequence_paxos/mod.rs, with the state of a replica as a record.
-- SequencePaxos/Tasks has the tasks that the source spawns (follower.rs, and the loops of buffers.rs
-- and clock.rs): a spawned task is a value in the state. A proposal is taken apart at its locks of the
-- buffers, of the storage and of the messages to the clients, and at its wait for the waiter's send,
-- which only makes it runnable; the other tasks are one step, or two where they wait for an answer.
-- SequencePaxos/Handlers has the message handlers, SequencePaxos/Leading leader.rs.
-- SequencePaxos/Events puts them together: an event is a call or a step of a task, and a run is any
-- list of events, so its theorems hold for every order of these steps. A call of the replica is one
-- step.
--
-- OmniPaxos models the facade of omni_paxos.rs over the replica and the election, with the logical
-- clock of util.rs. Proxy models src/proxy/proxy.rs and src/proxy/database.rs: an arm of a connection's
-- loop is one step there, and Proxy/Interleaving takes the arm of an ack apart, at its accesses to the
-- database and its sends, into steps between which other connections take theirs.
--
-- Server models src/server/database.rs and the execution of commands. Server/Loop has the state and the
-- handlers of src/server/server.rs, Server/Sending what they send, and Server/Running the loops of
-- `establish_initial_leader` and `run`. There `handle_client_messages`, `handle_cluster_messages`,
-- `handle_decided_entries` and `send_outgoing_msgs` are steps, one for a message and one for a lock, with
-- the steps of the replica's tasks between any two of them; a function returns none where the source
-- panics. Server/Network models the connections of
-- src/server/network.rs, Network the channels and the actors that it shares with src/client/network.rs,
-- and Server/Configs src/server/configs.rs. Server/Acknowledging, Server/Keeping and Server/Serving carry
-- an invariant of the replica through the server's loops, Server/Deciding and Server/Appending relate the
-- handlers to the log and to the proposals. Client models src/client/data_collection.rs, Client/Network
-- src/client/network.rs, and Client/Loop src/client/client.rs with the intervals of
-- src/client/configs.rs. Tests has concrete states, at which the theorems are applied.
--
-- Unicache models the caches of crates/custom-paxos/omnipaxos/src/unicache, a feature that these programs
-- do not switch on: Unicache/Lru lru_cache.rs, Unicache/Lfu lfu/mod.rs, Unicache/Lfu/Fields lfu_cache.rs
-- and Unicache/Lfu/Serializing lfu/serialization.rs. The crates lru and linked_hash_set are parameters,
-- with what is relied on of them in Unicache/Lru/Contents and Unicache/Lfu/Sets. The type of the codes is a
-- parameter too, with the condition that the codes which fit into a cache are different. Panics are none.
--
-- Numbers are native natural numbers. Where the source computes on `usize`, `u64` or `u32`, the model
-- wraps around at 64 or 32 bits, as a release build does; a theorem that needs the absence of a
-- wrap-around says so. The loop of `process_deadlines` has the number of deadlines as fuel, which is
-- enough since each round takes one out. The hash of the standard library is a parameter (`Hashing`,
-- `Hasher`), and so are the snapshots of a storage and the closures that execute a command.
--
-- Not modelled: sockets and the framing of their streams, what tokio's channels do beyond their
-- delivery, timers, files and environment variables, and logging, which are input and output; the user
-- interface and the derive macros, which are no part of the build of these programs. What comes from
-- outside - a message, a random number, the time, whether a send on a stream succeeds - is an argument of
-- the step that uses it.
pub mod Ballot
pub mod Buffers
pub mod Client
pub mod Clock
pub mod Common
pub mod Config
pub mod Election
pub mod Messages
pub mod Network
pub mod OmniPaxos
pub mod Prelude
pub mod Proxy
pub mod Request
pub mod SequencePaxos
pub mod Server
pub mod Storage
pub mod Tests
pub mod Unicache
