-- ===== src/Lib.antt =====
-- Agent Work Relay: the rules of the broker that takes a work order from a plan to its completion, and
-- of the store that lets supporting files into a work order only after a security scan.
--
-- A work order is planned by an executor, approved by a person, dispatched, acknowledged, executed and
-- reviewed. Each accepted message goes through the kernel (src/awr/lifecycle), a function from a state
-- and a snapshot to the next ones. Supporting files (src/awr/artifacts) are declared, uploaded under a
-- ticket, quarantined, scanned under a lease, and referenced by a work bundle; their rows stand in
-- SQLite (src/awr/storage/artifact_sqlite.py). The broker service (src/awr/service.py) checks each
-- response packet (src/awr/responses), reads the work order from SQLite (src/awr/storage/sqlite.py),
-- applies the kernel and writes the status, the snapshot, a ledger row and a receipt in one transaction.
--
-- Files:
--   Prelude, Prelude/*        Boolean tests, text, exceptions as values, lists, and library names
--   Host                      JSON values, ISO times, SHA-256: what Python and its libraries provide
--   Contracts                 src/awr/contracts.py: the states of a work order
--   Directives, Directives/*  src/awr/decorators.py: what a submitted document asks for
--   Lifecycle/Events, Transitions, Errors, Responses, Decisions, Pending
--                             the modules of src/awr/lifecycle of those names, and the packets of
--                             src/awr/responses/contracts.py
--   Lifecycle/Kernel/*        src/awr/lifecycle/kernel.py: `apply_response` (Response),
--                             `apply_broker_event` (Broker), `apply_decision` (Decision), the checks
--                             that they share (Guards), and their theorems
--   Lifecycle/Trace, Trace/*  the steps of a work order, and what holds along every run
--   Artifacts/Status, Records, Verdicts
--                             src/awr/artifacts/contracts.py
--   Artifacts/Tables, Rows    the tables of src/awr/storage/sqlite.py, with the unique indexes
--   Artifacts/Store/*         the writes of src/awr/storage/artifact_sqlite.py and the tickets of
--                             src/awr/artifacts/tickets.py
--   Artifacts/Intake          `finalize_stream` of src/awr/artifacts/service.py
--   Artifacts/Uploads         `upload_content` and `get_status` of src/awr/artifacts/relay.py
--   Artifacts/Bundle, Bundle/*
--                             src/awr/artifacts/bundle.py
--   Artifacts/Leases, Replays, Moves, Vetted, Trace
--                             theorems on the store, and its transactions in any order
--   Responses/Checks, Payload, Evidence, Packet
--                             src/awr/responses/validate.py and canonical.py
--   Responses/Bounds, Sizes, Limits, Accepted, Refused
--                             theorems on the packets that are accepted and refused
--   Broker/Records, Store, Decisions, Dispatches
--                             the broker's tables in src/awr/storage/sqlite.py with their keys and
--                             unique indexes, and the dispatch lease
--   Broker/Service, Decide, Events, Intents, Plans, Planning, Routing
--                             src/awr/service.py: `submit_response`, `record_decision`,
--                             `_apply_broker`, `_commit_execution_intent`, the plan in the ledger,
--                             `refresh_planning`, `_route_and_dispatch`
--   Broker/Deliveries, Readers, Repositories
--                             its notes on a dispatch, what it shows to whom, and the repository of a
--                             submission
--   Broker/View, Commits, Committed, Submitted, Refinement, Polls, Life, Calls
--                             the stored work order as a state of the lifecycle, its moves by the
--                             kernel, and the polls of a planning run, which write its status too
--   Broker/Replays, Claims, Leases, Journal, Planning/Plans
--                             repeated calls, the dispatch lease, the ledger, the stored plan
--   */Examples                concrete runs
--
-- State is passed explicitly: a kernel operation takes the status, the snapshot and the stored decisions
-- and returns a result or an error; a store operation takes the tables and returns them, and an error
-- carries none, since the transaction is rolled back. Times are in microseconds. The clock, the random
-- IDs, SHA-256, `json.dumps`, `int`, `fromisoformat`, `urlparse`, the executor's answers and the body
-- store are arguments. A table is a list, a frozenset a list that is read through membership; a column
-- of JSON text holds the value that it encodes. A call of the service reads and writes tables that no
-- other call changes between its transactions. Every loop of the model is structural recursion, so no
-- fuel is used. A snapshot that is stored is read back as it was written: that `from_dict` reads an
-- empty text as None is left out.
--
-- Not modelled: the Markdown form of a response packet, the steps of the service that advance a
-- dispatch at the provider and reconcile its run, bundles in a submission, the security service with
-- its detectors and scanner, retention, the Firestore stores, the executors' HTTP clients, the
-- transports and the command line, file system access, migrations, and the decoding of database rows.
pub mod Prelude
pub mod Host
pub mod Contracts
pub mod Directives
pub mod Lifecycle
pub mod Artifacts
pub mod Responses
pub mod Broker
