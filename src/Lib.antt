-- ===== src/Lib.antt =====
-- SmartClass Agent: the core of its backend, a service in which a teacher's chat runs drive a
-- language model. A run is accepted in the database, its events are published to Redis while it
-- lasts, and its end is written to the database; background jobs then reflect on it and write
-- long-term memories, and long conversations are compressed.
--
-- Which file models what:
--   Run           backend/app/services/chat_run_service.py and models/agent_run.py: create_chat_run,
--                 mark_chat_run_running, finalize_chat_run and the queries, on lists of rows.
--   Envelope      backend/app/core/model_access/workflow.py: the model configuration of a run.
--   Events        backend/app/core/chat_run_events.py: Store is what the code relies on of Redis,
--                 Scripts the two Lua scripts, Transport the methods of ChatRunRedis with their
--                 retries, Memory keys held in memory; Replay has the place from which a
--                 subscription of backend/app/api/chat.py reads on.
--   Tokens        backend/app/core/chat_runs.py, _TokenEventBuffer.
--   Manager       backend/app/core/chat_runs.py, ChatRunManager: start, _finalize_run, cancel of a run
--                 without a live task; Executing is _execute_run, Candidates is
--                 build_reflection_job_candidates of services/memory_reflection_service.py.
--   Worker        backend/app/core/memory_worker.py: run_once and the processing of a job.
--   ModelConfig   backend/app/core/model_access/schemas.py, registry.py (Registry) and resolve of
--                 config_repository.py (Resolving).
--   Requests      backend/app/core/model_access/errors.py and _agenerate of messages.py.
--   Accounts      backend/app/services/auth_service.py, plan_service.py and session_service.py.
--   Reflection    backend/app/services/memory_reflection_service.py and models/memory_reflection.py:
--                 the queue of reflection jobs.
--   Memories      backend/app/services/memory_service.py, and in Store the functions of
--                 backend/app/core/memory.py that it calls, over a store given by its laws.
--   History       backend/app/core/model_access/messages.py (Exchanges) and
--                 backend/app/core/context_compression.py (Compression).
--   Intake        build_bounded_intake_messages of backend/app/core/conversation_orchestration.py.
--   Files         backend/app/services/file_service.py: the knowledge files of a plan; Ingesting is
--                 their deletion and the index of their chunks.
--   Artifacts     backend/app/services/artifact_service.py: the revisions of an artifact.
--   Common        shared tests, lists, texts, results and lemmas on tables of rows.
--   Examples      each theorem at a concrete input.
-- Run calls Envelope and Reflection: the end of a run registers its jobs in the same transaction.
-- Events takes the live snapshot that Run projects. Manager composes Run, Events and Tokens: it
-- executes a run through the buffer and the store, and ends it in both; Worker composes Reflection
-- and Memories.
--
-- How the code is modelled: a table is the list of its rows, and a transaction that locks the rows
-- that it changes is one function on the database. Time, fresh identifiers, the configuration of
-- the process and the outcome of a publication, a request or a commit are arguments. Redis, the
-- store of memories and the check of a configuration snapshot are parameters with their
-- documented behaviour. The loops run over lists, the retries of a Redis call over the number of
-- attempts that the options allow, and those of a model call over the requests of its budget. Only
-- the inheritance of roles takes fuel, eight, one more than there are roles: a longer chain has met
-- a role twice, where the code raises. Dates and counters are natural numbers.
--
-- Not modelled: logs and metrics; the pools, key names (with the check of a run
-- identifier) and the script cache of Redis; the table
-- of tasks of ChatRunManager and the polling task of the worker; the model configuration that is read
-- from variables and YAML files; the graph of agents, prompts and calls of models; the HTTP interface,
-- tokens and password hashes, attachments and documents, which are input and output or glue over libraries.
pub mod Common
pub mod Envelope
pub mod Reflection
pub mod Run
pub mod Manager
pub mod ModelConfig
pub mod Requests
pub mod Accounts
pub mod Events
pub mod Tokens
pub mod Memories
pub mod Worker
pub mod History
pub mod Files
pub mod Intake
pub mod Artifacts
pub mod Examples
