-- ===== src/Lib.antt =====
-- FNCS: a framework that couples simulators, so that they advance in time together and exchange
-- messages.
--
-- The program's parts. Each simulator links the framework: `integrator.cpp` holds its settings,
-- `message.cpp` its messages, `objectcomminterface.cpp` the mailbox of each of its objects, and the
-- algorithms of `syncalgorithms/` decide when it may advance. They reach the other simulators by a
-- network interface, whose peer is one process, the broker of `fncsbroker.cpp`. The broker gathers a
-- contribution of each simulator (a time, a count of messages, a barrier) and answers all of them,
-- and it forwards messages to the simulator that owns the receiving object.
--
-- Which file models which part:
--   * Time: `util/simtime.cpp`. `convertToMyTime` and `convertToFrameworkTime` throw for a metric
--     that they do not know; multiplication wraps around at 64 bits.
--   * Settings: the members of the singleton of `integrator.h` that others read, and their accessors.
--   * Message: `message.h` and `message.cpp`. Message/Header has `serializeHeader` and
--     `deserializeHeader`, over lists of bytes. A string is its bytes; the data is `none` for a null
--     pointer; memory that a constructor does not set is an argument of `copy_message`.
--   * ObjectComm: `objectcomminterface.cpp`. The inbox is a list in which `none` is a null pointer;
--     the iterator is its position; time comes from Settings and the value of the clock.
--   * Network: `absnetworkinterface.h`, the operations that a manager calls, as a record over the state
--     of the interface. A call may hand over messages on the way. Network/Registry has the base class.
--   * CommManager: `commmanager/`. The state is that of both managers. Receiving has
--     `messageReceived`, Timeouts the packets of a network simulator, Sending the other calls. An
--     object that a pointer leads to stands under its name in the table; the callback by which an
--     algorithm hears of a message that is sent is an argument of `send` in ObjectComm.
--   * SyncAlgorithm: `syncalgorithms/`, over a record of the manager's operations. GracePeriod has
--     also the epochs, ActiveSet the algorithms with sleeping simulators, Communicator those of network
--     simulators, Reactive the one that answers messages, Sleeping the one that sleeps at ticks, with an
--     array of the other simulators' times. Stepping, Granting, Waking, Following, Reacting and Dozing are
--     about the loops, Remembering, Keeping and Resting about that array; what they rely on of the
--     other simulators is stated by `Answers`, `SleepAnswers`, `Advances` and `Rests`. The network delay
--     and the least time are got by the same call of the interface, so a `View` of the manager tells
--     their turns apart.
--   * SyncAlgorithm/Optimistic: `optimisticticksyncalgo.cpp` and `optimisticcommsyncalgo.cpp`. One process
--     is modelled. The operating system and the segment that parent and child share are a record over
--     a state that other processes may change; a process that exits is a `Turn`. Deciding has forking
--     and what a parent does about its child, Tick and Comm the two `GetNextTime`. Roles, Leading, Runs
--     and Histories are about the role of a process, Agreeing and Deserting about single operations.
--   * Config: `config_parser/`. The values of jsoncpp and the calls on them are a record. Factories has
--     the registry and the `Create` functions, Reading, Registering and Making are about their results,
--     Starting compares them with the functions of `integrator.cpp` that need no configuration. The
--     network interface is constructed by `init` of Zmq/Connecting, with what ZeroMQ does as a record.
--     Of an object that a factory makes, only what its constructor is given is kept.
--   * Integrator: the calls of `integrator.cpp` that go through to the two; Starting makes the singleton.
--   * Zmq: `zmqnetworkinterface.cpp`. The requests that go out are a log; what will be found on the
--     sockets is in the state, one list of frames for each loop that polls. Connecting is how a client
--     joins at first and after a fork, Joined what the broker makes of it.
--   * Broker: the state of `fncsbroker.cpp`. The vectors that a context indexes are one list of
--     records. Rounds has the collective operations, Sleeping the simulators that wait, Contexts
--     how simulators connect and how child contexts come into being, Routing the objects and their
--     messages, Main the remaining handlers and the loop of `main` over a list of events.
--   * Speculation: the strategies of `syncalgorithms/speculationtimecalculationstrategy.cpp`, by which
--     a child process chooses how far to run ahead of its parent; a subclass is a constructor.
--   * Base: tests, lists, ordered keys, `std::map` and `std::set` as association lists in the order
--     of iteration, C++ `int`, little-endian words, results.
--   * Tests: runs on concrete inputs and instances of the theorems; Federating has the communication
--     manager of the program with a federation around it.
--
-- Errors are values. A `Result` is a value, an exception, a failed assertion, or behaviour that the
-- C++ standard leaves undefined. An `Outcome` of the broker is a new state with the packets that were
-- sent, an exit by `graceful_death` with the packets sent before, an abort, or undefined behaviour.
-- An `Action` of a simulator's part is a function from a state to a state and a result, since what was
-- changed before a throw stays changed.
--
-- Bounds and fuel. Words are natural numbers, with `% 2 ^ w` where the code wraps around. On fuel are
-- `drain`, the loop in which a client reads its mailbox, for which two rounds more than there are
-- messages are enough, and the loops of the synchronisation algorithms. For the grace period
-- algorithm and the sleeping ticks as many rounds are enough as there are nanoseconds between the last
-- answer and the time asked for, if the answers go forward, and for the reactive algorithm as many as
-- there are to the end of the unit. In the active set algorithm of ticks the broker may also wake a
-- simulator with the answer before; if it does so at most `most` times in a row, `most + 1` rounds for
-- each nanosecond and what is left of these times are enough. The loops of epochs, active set
-- communication and optimistic ticks have no such bound here.
--
-- Not modelled: sockets, signals and the setting up of the broker's sockets, as the frames that a
-- handler reads are its arguments and sending succeeds; debug output; memory management; the
-- callbacks of the simulator, but for the clock. Of a `bool` that is read from bytes, only 0 and 1 are
-- values. When `sendAll` of a network simulator throws, the delivery times that it has written into
-- messages that stay in an outbox are not kept. The constructor of `ConservativeSleepingTickAlgo`,
-- which allocates its array, and the MPI interface are not modelled, nor are the copy of jsoncpp under
-- `contrib/` and the variants of the algorithms that fork which `Makefile.am` does not build.
pub mod Base
pub mod Time
pub mod Settings
pub mod Message
pub mod ObjectComm
pub mod Network
pub mod CommManager
pub mod SyncAlgorithm
pub mod Integrator
pub mod Config
pub mod Broker
pub mod Zmq
pub mod Speculation
pub mod Tests
