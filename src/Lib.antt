-- ===== src/Lib.antt =====
-- Rulite, a rule engine in Go: rules and groups of rules with conditions and actions are compiled to
-- an immutable set, an engine fires a set on an input, and a runtime replaces engines while calls
-- fire them. A call returns a ledger of what happened, which results, explanations and traces view.
-- Package dynamic builds rules from JSON definitions over a registry of typed actions, and package
-- otel puts an observer into calls of an engine or a runtime that reports them to OpenTelemetry.
--
-- Base            shared names, tests, lists, association lists, integers, stable sorting, strings
-- Errors, World   error values (errors.go, execution_errors.go); what callbacks run in
-- Condition       All, Any, Not and their recordings (condition.go, condition_trace_internal.go)
-- Rule            rules, builders, groups and entries (rule.go, metadata.go, group.go)
-- Ledger          metadata, results and events as data (compile_internal.go, result.go, observer.go)
-- Policy          options and their configuration (policy.go)
-- Compile         compileDefinitions (compile_internal.go): Validate collects issues, Layout lays out;
--                 Issues is the index of a ValidationError (errors.go); Accepts, Places, Pairs, Numbers, Order
--                 and Indexes are about every compiled set
-- Execution       execute and executeRules (execution_internal.go, observer_internal.go):
--                 State, Observe, Calls, Outcome, Visit and Loop are the code; Automaton and Runs are
--                 its specification; After, Refine, Visits, Loops and Whole are about both;
--                 Moves, Induction, Steps, Endings, Counts, Records, Stops, Picks and Reports are about
--                 invariants of the specification
-- Result          the views of a ledger (result.go, group_result.go, explain.go, explain_entry.go,
--                 trace.go, and the event views of observer.go); Texts has the names of enumerations;
--                 Once is about the fired members of a group
-- RuleSet, Engine, Runtime   ruleset.go, snapshot.go, engine.go, runtime.go
-- Dynamic         Failure (dynamic/errors.go), Json (checkJSON, dynamic/json.go), Schema
--                 (validateParamType, dynamic/params.go), Pattern and Registry (dynamic/registry.go),
--                 Definition (Decode, validateDefinitions) and Build (CompileJSON, Compile, CompileRules,
--                 compileValidated), both of dynamic/definition.go
-- Otel            Config (otel/options.go), Sdk (what OpenTelemetry may do), Adapter (New), Attributes
--                 and Observer (Observe, cleanup, Fire), all of otel/adapter.go
-- Tests           concrete sets and runs
--
-- Correspondence. A method of the Go type `execution` is a `Run`: it takes the object and the world,
-- and returns both or leaves by a panic. The world holds the condition recordings, which contexts
-- point into, and a host: everything that callbacks, observers, the context and the clock may read
-- and change, as arbitrary functions of it. A nil pointer, callback, context or input is `none`, and
-- so is an index out of range in a view; in the execution loop that is a panic. Callbacks may panic
-- and may fire engines themselves. A call that exits its goroutine (runtime.Goexit) is left out.
--
-- Identities, versions, attributes and documents are lists of bytes, and where the code decodes UTF-8
-- the model decodes it. The root's names, descriptions and tags, which it only trims and compares, are
-- lists of code points.
--
-- In dynamic the decoder of jsontext, json.Unmarshal, the types that reflect describes, the strict
-- decoding of an action's parameters, the validators of actions and the CEL compiler are parameters.
-- A registry runs its calls under its lock, so they are functions of its state, and a program that
-- uses it is a list of calls. In otel each call of the SDK may answer, may panic and may change the
-- host; the observer's fields and the list of what the SDK was told are a part of the host of the
-- execution, so one execution with its observer is a run of Execution.
--
-- Bounds. The loops of the code are structural recursions: over the rules left in a range, the
-- entries, the options, the children of a condition. The binary search runs on fuel, one more than the
-- number of records: each round shrinks the range. A condition tree is frozen
-- on fuel, one for each recording in the store. The tokens of a document are read on fuel, one more than the
-- limit of tokens, where the code gives up itself; the fields of a parameter type are searched to the
-- depth at which the code refuses them. Counts are natural numbers, as Go's `int` cannot overflow on the
-- length of a list in memory; the revision of a runtime is a `uint64` and its wrap is written out.
--
-- A runtime's Publish is one atomic moment, as it runs under its lock and ends in one store, and a
-- firing call is one atomic load followed by the call on what it loaded; interleavings are lists of
-- these moments.
--
-- Not modelled: the printed text of an explanation, the messages of the root's errors, captured
-- stacks, locks of recordings that callbacks share between goroutines, getters that pass one field
-- on, and package cel, which wraps the compiler and evaluator of the third-party cel-go.
pub mod Base
pub mod Compile
pub mod Condition
pub mod Dynamic
pub mod Engine
pub mod Errors
pub mod Execution
pub mod Ledger
pub mod Otel
pub mod Policy
pub mod Result
pub mod Rule
pub mod RuleSet
pub mod Runtime
pub mod Tests
pub mod World
