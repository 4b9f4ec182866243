-- ===== src/Lib.antt =====
-- A model of gostats, a library of counters, gauges and timers whose values go to statsd.
--
-- The parts of the program and the files that model them:
--
-- internal/tags/tags.go: tags and their text, `name.__k=v.__k2=v2`. A set of tags is a slice ordered by
-- keys. Tags has the tags, `NewTag` and `ReplaceChars`; Tags/Sort the sorting networks and `sort.Sort`;
-- Tags/Search the search and `Insert`; Tags/Build `NewTagSet`; Tags/Merge the merges; Tags/Serialize
-- `Serialize` and `SerializeTags`; Tags/Parse `ParseTags` and `ParseTagSet`. Their children have the proofs.
--
-- stats.go, the store: Store has the records (`counter`, `timer`, `statStore`), Store/Counters the methods of
-- a counter with `rejoin`, Store/Registry `newCounter`, `newGauge`, `newTimer` and the methods of gauges
-- and timers, Store/Flush the whole of `Flush`. A pointer is an index into a heap, so two names can share an
-- object and a counter that was pruned still exists. The maps are association lists (Names). Store/Labels
-- has the invariant: a list beside the heap says under which name each counter was registered. Writes, Fresh
-- and Gauges are about the operations, Rejoin about what they share, and the children of Flush about `Flush`.
--
-- stats.go, the scopes: Scopes has `validateTags`, `joinScopes`, `newSubScope` and what the constructors of
-- statistics share; Scopes/StoreMethods and Scopes/ScopeMethods have one constructor for each method. The
-- scopes use Tags for the names and Store for the statistics.
--
-- stats.go, threads: Interleave has the atomic operations of a counter's methods and of the counters' part of
-- `Flush`, for any number of writers and one `Flush` at a time. A thread is the place where it stands, with the
-- local variables that are live there; `move` is its next operation, `Step` what any thread may do next, and
-- `Reach` the states that steps lead to. Interleave/Places, Attached and Invariant are about the map and the
-- marks of pruned counters, Family, Ledger and Conserve about the counts, Alone about a thread that goes on
-- while the others stand still, Unpruned and Drained about the counts once all writers have returned;
-- Schedule runs a list of steps.
--
-- stats.go, the rest: Store/Spans has the methods that read, the durations and the time spans; Start has
-- `NewStore`, `NewDefaultStore`, `AddStatGenerator`, `StartContext` and `Start`; Store/Keeps says what the
-- methods of counters leave alone.
--
-- settings.go and `pruneAfterFlushesFromEnv` of stats.go: Settings, which has what they use of strconv.
--
-- net_sink.go: NetSink has the lines of counters and gauges and the buffered writer with its count of dropped
-- bytes; NetSink/Calls the lines of timers and the calls of a store; NetSink/Create `NewNetSink` and its
-- options; NetSink/Run the loop that sends, a round at a time, with the network as an argument of the round.
-- NetSink/Writer, NetSink/Lines, NetSink/Dropped and the children of NetSink/Run have the proofs.
--
-- logging_sink.go, null_sink.go, mock_sink.go and mock/sink.go: Sinks and its children. Each takes the same
-- calls, `Call`, that a store of Store makes.
--
-- runtime.go: Runtime, whose statistics are made by a `Scope` of Scopes/Interface.
--
-- stat_handler.go: Handler/Responses, the counters by status code and the response writer, and Handler/Serve, a
-- request with its timer, for any `Scope` of Scopes/Interface. stat_handler_wrapper.go and stat_handler_wrapper_1.7.go: Handler, `wrapResponse`.
--
-- Prelude has what all share, Bytes the byte strings, Tests the runs on concrete inputs.
--
-- Numbers are natural; a `uint64` or a `uint32` is below u64 or u32 and wraps around there, and `int` is 64
-- bits wide. A text is the list of its bytes. An index out of range, a nil dereference and an explicit panic
-- are the value `panic` of a run. A loop is recursion on the data, or on fuel: a search has as much fuel as the
-- set has tags, a parse as much as the text has separators. A merge is recursion on what is left of both
-- sets. A `rejoin` has fuel for two rounds: it calls itself only for the counter that has the name, and that
-- one finds itself.
-- A decimal number has 20 digits at
-- most. A write of `bufio.Writer` makes three rounds at most: each empties the text or the buffer, or fails.
--
-- `drainFlushQueue` has 64 rounds, as in the code. In Interleave nothing needs fuel: each step is one operation.
--
-- Outside of Interleave each method is one atomic action, and nothing runs between the steps of a `Flush` or of
-- a round of the network sink's loop. The type `float64` is a parameter, because a timer's values only pass
-- through to the sink, and the generators of statistics are a parameter, because they are code of the library's
-- users. The sink of a store is the list of the calls it received. The clock, the network and what the Go
-- runtime reports are arguments.
--
-- Not modelled: the texts of errors, the JSON text of a log line and the pools of buffers, which no state
-- depends on; `Fatal` of mock/sink.go, which only changes how a test ends; the programs under testdata, which
-- only call the library. Interleave leaves out the timers' and the gauges' parts of `Flush`.
pub mod Prelude
pub mod Bytes
pub mod Names
pub mod Tags
pub mod Store
pub mod Interleave
pub mod Scopes
pub mod Settings
pub mod Start
pub mod NetSink
pub mod Sinks
pub mod Runtime
pub mod Handler
pub mod Tests
