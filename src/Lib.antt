-- ===== src/Lib.antt =====
-- The reliability core of the Reminder server: the parts that promise that work is neither lost nor
-- done twice, as executable definitions over explicit states, with the theorems that make them correct.
--
-- The program is a knowledge-base server (app/mneme) and a memory agent (app/mneme/memoria). A request
-- writes an event to the outbox in its own transaction; a worker delivers it to a vector store, a graph
-- store or the memory agent, and retries it. The memory agent accepts it in an inbox, dispatches it to
-- a handler, and checks deletion fences so that an old event does not bring back what was deleted.
-- Answers to outside channels go through a queue of deliveries that are resumed after a partial send;
-- the runs that produce them take turns in a session by a lease.
--
-- Prelude: Boolean tests on native numbers, lists, tables as lists of rows with a text key, sorting by
--   a number (ORDER BY), results with a raised code, native texts by characters.
-- Outbox: app/mneme/domains/tasks/outbox.py, app/mneme/crud/outbox_event.py and
--   app/mneme/models/outbox_event.py. Event and Table hold the rows and the statements
--   (enqueue_outbox_event, update_outbox_event_status), Worker the deliveries (mark_outbox_running,
--   mark_outbox_failed, process_outbox_event_by_id, dispatch_pending_outbox_events) as one worker makes
--   them, and Overlap the transactions of a delivery one by one, as those of any number of workers mix.
--   A handler may enqueue further events, as apply_runtime_subscriber_action of
--   app/mneme/memoria/automation/service.py does.
-- Task: app/mneme/domains/tasks/state.py, app/mneme/crud/task_record.py and
--   app/mneme/models/task_record.py: the life cycle of tasks, and the claim and recovery of
--   maintenance tasks.
-- RunStore: the memory backend of AgentRunStore (app/mneme/memoria/persistence/runs.py) over the
--   records of app/mneme/memoria/run_models.py. A method holds the store's lock or is one
--   statement, so it is a step.
-- Delivery: app/mneme/channels/delivery.py and the deliveries of app/mneme/crud/channel.py and
--   app/mneme/models/channel.py, with the sending half of app/mneme/channels/adapters/feishu.py and
--   app/mneme/channels/registry.py in Feishu. The HTTP client is a parameter, of which nothing is assumed:
--   it may answer anything and raise anything. Histories has the operations one after the other.
-- Inbox: app/mneme/memoria/server/services/event_dispatcher.py, repositories/inbox.py and the sweep of
--   tasks/events.py beside it.
-- Fences: app/mneme/memoria/server/services/deletion_fences.py. The digest of the fence key is a
--   parameter, as is the order of event ids, which the database is taken to share with Python.
-- Context: app/mneme/memoria/context_governance.py. The regular expressions of the cleaning and the
--   floating-point scale of characters to tokens are parameters.
-- AnswerRuns: app/mneme/memoria/server/repositories/runs.py and models/answer_run.py beside it. Record is
--   the row, Repository the methods on it, Table the calls on the table.
-- Projection: app/mneme/memoria/server/services/projections.py and repositories/projections.py. Record holds
--   the rows and the payload of an event, Stage the staging of a batch, Prepare the checks on a complete
--   projection, Activate the swap of versions. Hashing and JSON are the record Python of parameters; the
--   embedding service is a parameter of finalize_projection, as is what others do while it runs. Handler
--   is handle_document_projection_upserted of services/event_dispatcher.py, which asks the deletion fences
--   before it stages.
-- Memory: app/mneme/memoria/server/memory/reconciliation.py, policy.py and identity.py beside it, and
--   app/mneme/memoria/server/repositories/memories.py. Record holds the rows, Policy the decision, Tables
--   and Evidence the queries and insertions, with the unique indexes but the one on open revisions,
--   Revise, Reconcile and Decide the operations. Texts, floats, hashing and the embedding service are the
--   record Python of parameters; the ids that new_id draws are arguments.
-- MultiAgent: app/mneme/memoria/server/multi_agent/budget.py, coordinator.py and the reservations of
--   executor.py. Budget is the ledger and its reservations, Coordinator the decision and the shares.
-- Events: the append and the cursor read of app/mneme/memoria/persistence/runtime_events.py.
-- Infra: app/mneme/infra/rate_limit/__init__.py and app/mneme/infra/retry/__init__.py.
--
-- Instants and delays are natural numbers, in the unit of the code. A transaction is a step on the rows
-- of its table; a table is the list of its rows in the order of insertion. Handlers and adapters act on
-- a world of any type. The loop of retry_async runs on fuel, one more than its attempts, as each round
-- makes one call; all other loops go over lists.
--
-- Not modelled: network clients, the web framework, the Celery entry points and logging, which only
-- call these parts; the Redis backend of the run store; the handlers of the outbox and the inbox but
-- the one of document projections; heartbeat jobs, folders and retrieval, which are components of their own.
pub mod Prelude
pub mod Outbox
pub mod Task
pub mod RunStore
pub mod Delivery
pub mod Inbox
pub mod Fences
pub mod Context
pub mod Infra
pub mod Events
pub mod AnswerRuns
pub mod Projection
pub mod Memory
pub mod MultiAgent
