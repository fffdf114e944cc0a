-- ===== src/Lib.antt =====
-- OSEye is a security platform: agents send signed batches of events to a server, which
-- validates and stores them, runs rules over them, correlates the alerts, decides on a
-- response, asks a human where the score is high, and sends commands back to the agents. This
-- library models the server's core, the Python code of server/oseye.
--
-- The path of an event is the order of the parts. An agent opens a stream under the name of
-- its certificate; each batch passes the validator, and what passes is published under that
-- name. The normalizer checks the events that its adapters make, and the storage writer puts
-- them into the database in batches. The rules of its category are tried on each event; a
-- temporal rule counts the matching events of a sliding window. The rule worker stores an
-- alert for a match, unless one of the same rule and entity is recent. The linkers score an
-- alert against the open incidents, and the correlation engine joins it to the best one or
-- opens a new one, in two tables; the correlation worker announces it. Reports of outside
-- services are cached, and each service stands behind a circuit breaker and a retry loop; the
-- client aggregates their reports. The decision worker loads the incident; the decision engine
-- weighs its signals, chooses actions and commits the decision to a hash-chained journal, and
-- the worker takes the commit back where the decision cannot be stored. The executor publishes
-- the decision and sends commands; a decision that asks for a human waits in the approval
-- queue until an operator or the timeout decides it. Agents report what they executed, and an
-- operator may roll an action back. Operators come in with sessions or API keys, whose roles
-- the routes check, agents with enrollment tokens; the policy engine sends profiles and rules
-- to the agents that are connected; plugins are verified, installed and started; forensic
-- cases carry a custody log, a hash chain of their own.
--
--   Prelude         lists measured by native numbers, dictionaries (Assoc), the
--                   order of use of an OrderedDict (Ordered), bounded deques (Deque),
--                   the interface of floating-point numbers (Floats), integers (Int)
--   ThreatIntel     server/oseye/threat_intel
--     Breaker       breaker.py, AsyncCircuitBreaker: `enter` is the part of `call` before
--                   the provider is awaited, `on_failure`, `on_success` and `on_cancel` are
--                   its three ways out, and `run` interleaves the parts of any calls
--     Cache         cache.py, MemoryTICache: `get`, `set`, `close`
--     Retry         retry.py, `retry_async`, with what each call brings as a function
--     Client        client.py, ThreatIntelClient: `lookup` over the cache, `_aggregate`
--   Decision        server/oseye/decision, and the decision of core/schema.py (Types)
--     Journal       journal.py, DecisionJournal: `commit`, `rollback`, `verify_chain`
--     Engine        engine.py: WeightedScorer (`new_scorer`, `compute`), PolicyOverrides
--                   (`apply`), `_apply_risk_matrix`, `_is_leader`, `decide`
--     Repository    storage/repositories/decisions.py, SQLDecisionRepository: the rows as a
--                   list, each statement as one step
--     HumanQueue    human_queue.py: `approve`, `reject`, `_expire_timeout`;
--                   `_update_decision` is cut at the await between its read and its write
--     Executor      action_executor.py, ActionExecutor: what it publishes, as a
--                   list of effects, and whether it raised
--     Worker        workers/decision_worker.py, DecisionWorker: `_process` over the parts
--                   above, and `run` over a list of messages, each with what the
--                   repositories answer to it
--   RuleEngine      server/oseye/rule_engine
--     Temporal      evaluator.py: the windows and `evaluate`
--     Index         engine.py: the rules by category and `evaluate`; parser.py:
--                   `load_all_rules`
--     Parser        parser.py, `_parse_rule`
--   Ingest          server/oseye/ingest
--     Validator     validator.py, BatchValidator: `validate`
--     Service       grpc_service.py, AgentServiceServicer: `IngestEvents` over the
--                   validator; normalizer_bridge.py: the agent's identifier
--     Normalizer    normalizer/engine.py, NormalizerEngine: the adapters by system and source,
--                   `process` and its dead letters; the loop of workers/runner.py (Runner)
--   Workers         server/oseye/workers
--     Storage       storage_writer.py, StorageWriter: the reader of the bus, the timer and the
--                   stop as steps that meet at the awaits of `_flush`, over `insert_batch` of
--                   storage/repositories/events.py
--     Rules         rule_worker.py, RuleWorker: `_handle_matches` and `_create_alert`, with the
--                   matches of each event as an argument
--     Correlate     correlation_worker.py, CorrelationWorker: `_process`
--   Response        storage/repositories/response_actions.py; `ReportActions` of
--                   ingest/grpc_service.py; the rollback route of
--                   api/routers/response_actions.py; Requests is their sequences
--   Bus             bus/memory_bus.py, InMemoryEventBus: its queues by number, and the
--                   steps of its publishers and readers
--   Correlation     correlation/engine.py, CorrelationEngine: `process_alert`; a linker
--                   is its scoring function and whether it has `max_severity`
--     Linkers       correlation/linkers, and the list of linkers of main.py
--     Incidents     storage/repositories/incidents.py, SQLIncidentRepository, its two tables;
--                   `process_alert` and `close_stale_incidents` over them (Request), where
--                   each transaction may fail
--   Policy          policy/engine.py, PolicyEngine
--     Signer        policy/rule_signer.py, RuleSigner
--   Plugins         plugin/manager.py, PluginManager: the directory as a dictionary of files, the
--                   processes as a list
--     Verifier      plugin/verifier.py, PluginVerifier
--   Forensic        forensic/case_manager.py, CaseManager, over the rows of
--                   storage/repositories/cases.py; each statement may fail by itself
--   Enrollment      storage/repositories/enrollment_tokens.py,
--                   SQLEnrollmentTokenRepository
--   Access
--     Sessions      api/auth/jwt.py, JWTHandler: `verify_token`, `revoke_token`
--     ApiKeys       storage/repositories/api_keys.py, SQLApiKeyRepository
--     Roles         api/auth/rbac.py: `_resolve_identity`, `require_role`
--     Sockets       api/ws/manager.py, WebSocketManager: `connect`, `disconnect` and
--                   `_broadcast_local` on the sets of sockets
--   Tests           the theorems at concrete inputs
--
-- Times are whole ticks of a clock, identifiers are numbers, and scores are the elements of an
-- interface of floating-point numbers with a total order that agrees with that of the whole
-- numbers; fixed-point numbers are an instance. The digests, the Ed25519 check, the address
-- parser, PyJWT, UUIDs, the event bus, the conversions of Python values and the evaluation of
-- a rule's condition are parameters, and so are the adapters of the normalizer and the start
-- of a plugin's process. Every loop is a recursion on a list or on the attempts that are left,
-- so there is no fuel. The caps are the source's: 10000 reports, 10000 events in a window and
-- in a batch, 200 hashes in the history of the journal, 50 candidates of an alert, 20
-- incidents of a query, five failed insertions in a row, 60 seconds between two alerts of a
-- rule and an entity, 500 sockets and five of one user.
--
-- Not modelled: log lines; the Redis clients and the back pressure that reads their streams;
-- file reading and hot reload of rules; the
-- expression language of conditions; the streams of policies and commands; the adapters of the
-- normalizer, which parse the formats of operating systems; the sandbox of a plugin; the
-- export of forensic cases; the workers of threat intelligence, of the machine-learning engine
-- and of notifications; the machine-learning engine; the HTTP interface but the rollback route
-- and the checks of roles; and the command line.
pub mod Prelude
pub mod Plugins
pub mod Policy
pub mod ThreatIntel
pub mod Workers
pub mod Decision
pub mod RuleEngine
pub mod Ingest
pub mod Enrollment
pub mod Correlation
pub mod Access
mod Tests
pub mod Response
pub mod Forensic
pub mod Bus
