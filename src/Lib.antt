-- ===== src/Lib.antt =====
-- swf4go: state machines for workflows of the Amazon Simple Workflow Service.
--
-- The program. A workflow's history is a list of events that the service keeps. A poller (poller.go)
-- asks the service for decision tasks, each with the history, newest event first. `FSM.Tick` (fsm.go)
-- reads the persisted state out of the history, calls the decider of the current state once for each
-- new event, oldest first, merges the outcomes, and returns decisions, the first of which records the
-- new state as a marker in the history, where the next task finds it. Errors become signals to the
-- workflow itself, which the FSM's error state handles in a later task. `ActivityCorrelator`
-- (fsm_models.go) keeps, in the persisted state, which activity each event identifier scheduled.
--
-- The files.
--   Prelude      Booleans, options, lists, decimal numerals and maps shared by all modules.
--   Go           Go's results: `Result` for (value, error), `Exec` for what returns or panics, `Attempt`
--                for what a package outside the program returns.
--   Protocol     protocol.go: each struct as a record, its pointers as options; the event and decision
--                types, the tables of selectors (EventTable, DecisionSelectors), DecisionTypes
--                (DecisionTable), and the JSON of dates (Date).
--   Clients      clients.go: the interfaces (Interfaces), the regions, Client, one exchange over HTTP
--                (Exchange: prepareAndExecuteRequest, swfReqNoResponse and its kin), and Client's
--                operations as implementations of the interfaces (Methods). The request that is sent
--                is in Posted, what an exchange comes to in Exchanged; the FSM, its poller and the
--                migrators with Client for their client are in DecisionTask, Polling and Migration.
--   Correlator   fsm_models.go: Track, Correlate, RemoveCorrelation, ActivityType. Its state is the map,
--                `none` for a nil map, passed on by each operation.
--   Fsm/Outcome, Fsm/Context, Fsm/Serialization
--                fsm_models.go: the outcomes, FSMContext and its helpers, the persisted state.
--   Fsm/Serializers
--                fsm_models.go: JSONStateSerializer and ProtobufStateSerializer.
--   Fsm/Machine  fsm.go: the FSM struct, Serialize, Deserialize, InitialState, EventData.
--   Fsm/History  fsm.go: findLastEvents, findSerializedState and their tests on events.
--   Fsm/Capture  fsm.go: recordMarker, recordStateMarker, captureError and its two callers.
--   Fsm/Tick     fsm.go: Tick, mergeOutcomes and panicSafeDecide. Its parts (Tick/Stages), runs of
--                decided events (Tick/Runs, Tick/Refinement), what it persists (Tick/Marker,
--                Tick/Version) and signals (Tick/Signals), its decisions (Tick/Complete), its panics
--                (Tick/Total), and what it does with the protobuf serializer (Tick/Protobuf).
--   Fsm/Execution
--                the decision tasks of one execution, one after the other, as a relation.
--   Fsm/Setup    fsm.go: AddState and its kin, the default states, Init, StartFSMWorkflowInput,
--                ContinueFSMWorkflowInput, stateFromDecisions.
--   Fsm/Replication
--                fsm.go: handleDecisionTask, over a client and a replicator.
--   Fsm/Control  fsm.go: the fields of the FSM that Init sets beside those of Fsm/Machine, and Stop.
--   Fsm/Start    fsm.go: Start, up to a round of its poller's loop.
--   Deciders     deciders.go: ComposedDecider, DefaultDecider, ManagedContinuations, and the builders of
--                Typed (Typed), over a model of the types and calls of Go's `reflect` (Reflect).
--   Migrators    types.go: the four migrators and TypesMigrator, over a client that changes the service.
--   Pollers      poller.go: Poll and a round of the loop as functions; PollerShutdownManager and the loops
--                that it stops as a step relation (Pollers/Shutdown), one step for each channel
--                operation, in any interleaving.
--   Fsm/Samples, Migrators/Samples, Clients/Samples, the modules of tests
--                a sample FSM with a serializer that reads back what it writes, sample services, and runs
--                of them.
--
-- Conventions. A name is the program's in lower case with underscores. The user's data is a type
-- `V`, and a nil `interface{}` is `none`; a decider is a function of the context, the event and the
-- data, and the data that it changes through a pointer is the data that it returns, so a decider
-- that panics halfway through such a change is not told from one that panics before it. An FSM's own
-- serializer, which may panic, and the client and the replicator, which are taken not to, are
-- parameters. Event identifiers are `int` in the
-- program and natural numbers here. `uint64` versions wrap at 2 ^ 64. A loop over a slice is a
-- recursion on the list; there is no fuel, since every loop but those of the pollers, which are a
-- step relation, runs over a slice. A nil dereference is a panic. Log output has no effect in the
-- model. Text is a `String`, also where the program converts it to bytes.
--
-- encoding/json, goprotobuf, base64, aws4, strconv's floats, the connections of net/http and the clock are
-- parameters, whose errors are none of the program's own. An HTTP body is the text that is read from it, and
-- debug mode of a client is the two dumps that can fail.
--
-- Not modelled: the bytes of JSON, protobuf and base64, logging, the goroutine that Start spawns,
-- what a function that Typed calls writes through its pointer, and HistoryEvent.String, whose text only
-- goes into logs and into the value of one panic.
pub mod Clients
pub mod Correlator
pub mod Deciders
pub mod Fsm
pub mod Go
pub mod Migrators
pub mod Pollers
pub mod Prelude
pub mod Protocol
