-- ===== src/Lib.antt =====
-- A model of the AROS kernel, and what holds of it.
--
-- The kernel supervises the processes of an agent system. Loops submit tasks in envelopes; the
-- governor admits them within the budgets of their tier; task graphs order them and an executor
-- dispatches the ready ones; an adapter chooses a model provider behind circuit breakers; a
-- guard controls who writes to the shared store; the supervisor restarts the processes that
-- fail; the scheduler says how many agents the hardware bears.
--
-- Files, and the sources that they model:
--   Dag, Dag/Graph, Dag/Runtime, Dag/Executor: src/dag/graph.rs, runtime.rs and executor.rs.
--   Dag/Sorting: the topological order in src/dag/graph.rs.
--   Dag/Checkpoint: src/dag/persistence.rs.
--   Envelope: src/envelope/task_envelope.rs and error.rs.
--   Governor, Governor/Budget, Governor/Decision: src/governor/governor.rs, budget.rs and
--     admission.rs.
--   Adapter/Circuit, Adapter/Config, Adapter/Resolver, Adapter/Provider:
--     src/adapter/circuit_breaker.rs, config.rs with request.rs and mod.rs, resolver.rs, and
--     provider.rs.
--   Store/Acl: src/store/acl.rs, error.rs and the trait of mod.rs.
--   Store/Engine: src/store/engine.rs.
--   Agent: src/agent/lifecycle.rs.
--   Boot: src/main.rs, as far as it registers, starts and stops the processes.
--   Dispatch/Rpc, Dispatch/Contracts, Dispatch/Server, Dispatch/Client: the files of these names in
--     src/dispatch.
--   Supervisor/Process, Supervisor/Health, Supervisor/Kernel: src/supervisor/process.rs with
--     error.rs, health.rs and kernel.rs.
--   Supervisor/Tasks: the registry of tasks in src/supervisor/handler.rs, and the requests that
--     submit a task, report its progress and complete it, over the envelope and the governor.
--   Supervisor/Triggers: the triggers between loops in the same file, the cancellation of a task,
--     and the routing of all requests, over the supervisor, the tasks and any store.
--   Scheduler/Allocator, Scheduler/Admission, Scheduler/Recommender: the files of these names in
--     src/scheduler.
--   Hardware, Hardware/Pressure, Hardware/Thermal: the records and levels of src/hardware/probe.rs,
--     pressure.rs and thermal.rs.
--   Prelude and its children: Boolean tests, lists, maps, results and floats that all parts share.
-- The modules below these hold the proofs and are named for what they prove; the modules called
-- Examples apply the theorems to concrete data. A function, type or field has the name of the
-- source; an operation on `&mut self` takes the state last and returns it after its answer.
--
-- How the program is read:
--   A `HashMap` is a list of pairs whose order stands for the order of iteration. What a method
--   does under one lock is one step. A time is a number of nanoseconds, and the clock is an
--   argument `now`. The machine integers wrap as in a release build, and `saturating_` and `as`
--   are written out. An `f64` is an exact dyadic fraction rounded to 53 bits after a product. The
--   texts of errors and reasons are cases with the values that the texts show.
--   The search for a cycle runs on fuel, one unit for each node: each call marks a new node, so
--   the fuel is enough. The topological sort has one unit more than there are nodes, since each
--   round sorts a new node. The loop of the executor has one round more than there are pending
--   nodes, since every round that does not stop dispatches one; with no room for a task there is
--   no bound, as the code has none. The tasks of a graph, the database, the file system, the
--   sockets and the JSON library are parameters, and what is relied on of each of them is a named
--   record of laws.
--   A submission asks for a decision and starts the task in a second step, and a report of a failure
--   takes two locks; in the model the two steps follow each other at once. What two submissions at
--   once do is in Supervisor/Tasks/Overlap.
--   A run of the executor alone takes a tick as one step. What others may change between the two
--   locks of a tick is a step relation of its own, in Dag/Executor/Interleaving.
--
-- Not modelled: the accepting of connections, the readings of sensors, the agents that start
-- external programs, the printed summaries and time stamps, and the arguments and signals of the
-- command line. Most of these are calls of the system or of libraries.
mod Prelude
pub mod Dag
pub mod Envelope
pub mod Hardware
pub mod Governor
pub mod Adapter
pub mod Store
pub mod Agent
pub mod Boot
pub mod Dispatch
pub mod Supervisor
pub mod Scheduler
