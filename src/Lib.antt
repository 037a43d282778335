-- ===== src/Lib.antt =====
-- Verified models of the verified-concurrent workspace: the state machines that its model checker
-- explores, the reference programs that its evolution starts from, and the checkers and drivers that
-- judge them.
--
-- Parts, and where they stand:
--   SsiModel      crates/vf-stateright/src/ssi.rs: serializable snapshot isolation as a state machine.
--                 SsiState is the record of the source; `apply` is SsiState::apply, with one function
--                 for each arm, and yields none where the action is not enabled. The constructors of
--                 SsiAction are plural verbs, since those of Operation have the singular.
--   TreiberModel  crates/vf-stateright/src/treiber_stack.rs: the Treiber stack as a state machine of
--                 threads. `actions` and `next_state` are the methods of StackModel. The loop of
--                 `contents` runs on fuel, one more than the number of pushed values, since the list
--                 of a reachable state is no longer than the set of them.
--   TwoPhase      tools/vf-evolve/tasks/two_phase_commit/initial.rs: two-phase commit. Txn has the part
--                 of each operation that works on one transaction, Table the operations themselves.
--                 Each basic one but `begin` holds the mutex from its first line to its last, so a
--                 run of the program is a sequence of them; `begin` takes an identifier from an atomic
--                 counter and then holds it, which is one step here since no identifier is taken
--                 twice before the counter wraps; run_commit and run_abort are such sequences.
--   Store         crates/vf-examples/src/ssi.rs: the key-value store. The operations hold one mutex,
--                 and are functions on SsiInner. The counters of transactions and timestamps wrap at
--                 2 ^ 64, as in a release build; a statement that needs new transactions to have new
--                 identifiers is about fewer than 2 ^ 64 - 2 calls, before the counter wraps.
--   Checkers      crates/vf-core/src/property.rs, and of invariants stack.rs, ring_buffer.rs,
--                 linked_list.rs, btree_plus.rs and ssi.rs: results of property checks, and the
--                 checks of a stack, of a ring buffer, of the two ordered structures (Sorted) and of
--                 a history of transactions (SsiHistory, whose recorder's methods get a prefix).
--                 Texts are left out; a violation has the numbers that its text reports.
--   Scheduler     crates/vf-dst/src/scheduler.rs: the thread scheduler. The random number generator is
--                 a parameter, for DeterministicRng of crates/vf-dst/src/random.rs, a seeded
--                 Xoshiro256**; of it only the range of its draws is assumed. The loop of
--                 pick_other_thread has no bound in the source: it runs on fuel, any fuel, and the
--                 statements say that it has no result exactly where all of that many draws are the
--                 current thread. Assertions are conditions of the statements.
--   Cascade       crates/vf-evaluators/src/cascade.rs and result.rs: the loop over the evaluators,
--                 whose answers come from tools outside the program and are a parameter.
--   Raft          tools/vf-evolve/tasks/raft_consensus/initial.rs: a node of Raft. State has NodeInner
--                 and the messages, Sending and Handlers the methods of RaftNode, which hold one mutex
--                 and are functions on NodeInner. Increments of a u64 that a message or a clock can
--                 drive to the end wrap at 2 ^ 64; a statement about all runs is about fewer than
--                 2 ^ 64 steps. Cluster is the environment: nodes of distinct identifiers, and a
--                 network that keeps all messages and delivers any of them at any time, so messages
--                 are lost, repeated and reordered. The loop of apply_committed runs on fuel, the
--                 number of entries to apply; that of try_advance_commit goes down the indices of the
--                 log. Ballots, Votes, Frames and Moves have the invariant behind Elections, Logs and Follow
--                 what a follower makes of entries, Commits what is committed, Steps what no step
--                 changes. The field `data` of a log entry is named `payload`.
--                 Histories has the logs of the leaders of all terms, Reigns what a leader adds to
--                 them, Replication and Matching how each step of a node agrees with them, Crownings
--                 the steps that add to them, Chronicles and LogMatching the runs of a cluster.
--   RaftElection  tools/vf-evolve/tasks/raft_election/initial.rs: leader election alone. Server has what
--                 a method does to one ServerInner, Cluster the methods of RaftElection, Net the calls
--                 that a network makes: with the messages that earlier calls made, and with a response
--                 only to the candidate that its request named, which the response itself does not
--                 say. Servers, Soundness and Safety share the ballots of Raft, Errors and Progress are
--                 about run_election.
--   Base          what they share: Boolean tests, lists, sets and maps with numbers for keys. HashMap,
--                 BTreeMap and the sets of the source are lists in the order of the keys.
--
-- The components do not call each other in the source. SsiModel and Store are two versions of one
-- algorithm: the model aborts a read or a write that would complete a dangerous structure around a
-- committed transaction, and the store does not; the tests of the two show where they differ.
--
-- Not modelled: the checkers of the other data structures, the harnesses, clocks and faults of the
-- simulation tests, and the other evolution tasks, which are the next candidates; and what runs
-- external tools, calls language models, renders text, or measures time.
pub mod Base
pub mod SsiModel
pub mod TwoPhase
pub mod TreiberModel
pub mod Store
pub mod Checkers
pub mod Scheduler
pub mod Cascade
pub mod Raft
pub mod RaftElection
