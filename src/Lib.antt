-- ===== src/Lib.antt =====
-- A model of gcp-emulator-pool: fakes of Google Cloud services for tests, in Go.
--
-- Parts and files:
-- * Pstest models gcpapi/pubsub/pstest/fake.go, a Pub/Sub server in memory. State holds `GServer`
--   and the objects that its maps point to; Reactors, Topics, Subscriptions, Settings, Publishing,
--   Delivery, Seeking and Streams hold one function for each RPC and each method, under the source's
--   names in snake case; Server has `NewServer`, the dispatch of a request and the events. The RPC
--   itself is `create_topic` and so on, and what stands behind its call of `runReactor` is
--   `create_topic_body`.
-- * Testutil.Paging models `PageBounds` of gcpapi/testutil/server.go, which the list RPCs call.
-- * Gcsfake models gcpapi/storage/storagetest/gcsfake.go, a storage client in memory.
-- * Dsfake models Commit and Lookup of gcpapi/datastore/dsfake/dsifake.go, and its child Keys GetDSKeys,
--   the keys that it makes, and WhyInvalidKey.
-- * Dsmock models gcpapi/datastore/dsmock/dsmock.go, a Datastore client over a map in memory: Keys has
--   the keys and `valid`, the parent the client.
-- * Dstest models gcpapi/datastore/dstest, the pool of emulators: Indexes index_yaml.go, Startup,
--   Locking (with its child Starting) and Paths datastore_emulator.go, Client temp_client.go. Os is
--   the interface to the system that they call, and Calls has the early returns and deferred calls.
--   Interleaving has the calls of datastore_emulator.go that open, lock and close lock files as a step
--   relation on any number of processes.
-- * PubsubInfo models gcpapi/pubsub.go, the wrapper of the Pub/Sub client.
-- * Pstest.Pulling models the three goroutines of a stream as a step relation; its steps on the
--   channels are those that the `streams` of a subscription see as `ready` and `done`.
-- * Common has the shared types: Go maps as association lists, strings as lists of bytes, integers,
--   heaps. Strconv has `Atoi` and `Itoa`.
-- * The proofs stand in Pstest.Invariant and in the modules of each part that are named for what they
--   prove; the modules named Scenarios apply the theorems to small states.
--
-- Choices:
-- * Pointers are references into heaps of the state, so that a topic, a subscription or a message is
--   shared as in the source. A pointer that a caller keeps from an answer, in the same process, is
--   not followed: answers are copies.
-- * Go visits a map in any order; the model visits the list of its entries, and the theorems hold for
--   every list.
-- * Each method that holds the lock of the server is one step. Readings of the clock are arguments.
--   A Pull that waits comes back as `Wait`: its context ends, or other calls run and it pulls again.
--   `PublishOrdered` takes the lock twice; the model has nothing in between.
-- * Errors are their codes; their texts are left out. A panic is an outcome, or `none`.
-- * A reactor answers from the request alone. Counters and ids do not wrap around, and times and
--   durations are integers of nanoseconds without bounds. Seconds in requests are 32-bit numbers, and
--   a minimal deadline is cut to 32 bits as in the source. In `PageBounds` the sum of the start and
--   the page size is not cut: the start is below the length and the size is a 32-bit number.
-- * The loop of `tryDeliverMessage` runs on fuel, the number of streams, which is shown to be enough.
--   Other loops are structural recursion.
-- * What the goroutines of the streams do while `deliver` runs is its argument `Meanwhile`, which may
--   change every stream before the turn of each message; within the turn of one message streams stay.
-- * `strings.Trim` is for bytes of ASCII. The protobuf encoding of entities is a parameter.
-- * A panic leaves the model's state as it was; in the source it ends the process.
--
-- * What is called and not in the repository is a record of operations (`Os`, `Service`), or an
--   argument, with the documented behaviour as a record of laws: `Flocks` for locks on files, `Timers`
--   for timers and contexts. What is printed is left out.
-- * In the functions of Dstest, and in Locking.Pool, a call of one process is one step; in
--   Dstest.Interleaving processes take turns after every system call, each in the order of calls of
--   the source, but with any paths, results and times.
--   A descriptor is an open file, numbered across the processes. The lock directory is `lock_dir_path`
--   of `Os`; `lock_dir_path_of` is the function that finds it. Errors keep message, cause and fields.
--   `Try` is the result of a function, and `hangs` a function that does not return: its loop is without
--   fuel, or it waits for a lock or for the answer to the request of `Reset`, which has no timeout. The
--   loop of `waitForStartup` has fuel for 1001 polls, as many as fit into its timeout, which is shown to
--   be enough; its requests end with their context.
-- * The goroutines of a batch of `SendPubSubMessages` run in an order that is an argument. Its loop
--   has fuel for a batch per message, which is shown to be enough.
-- * Keys of Dsmock stand on a heap, as a parent is a pointer and keys are compared with it; the chain of
--   a key's parents is as long as its place on the heap at most, since parents are allocated first.
--
-- Not modelled: the start of gRPC servers and of goroutines, the factories of clients, the test client
-- of pstest/test_client.go, and helpers for contexts and comparisons of protobuf messages.
pub mod Common
pub mod Strconv
pub mod Testutil
pub mod Pstest
pub mod Gcsfake
pub mod Dsfake
pub mod Dsmock
pub mod Dstest
pub mod PubsubInfo
pub mod Scenarios
