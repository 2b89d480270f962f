-- ===== src/Lib.antt =====
-- Constructor: a platform on which tenants define workflows whose steps are agents, conditions,
-- transformations and notifications.
--
-- The program has four services that share a database and Redis. The platform API
-- (services/platform-api) stores the workflows, lets users and webhooks start executions, and runs
-- them. Its executor publishes a task for each agent step; the agent service
-- (services/agent-orchestration) runs the task with a chat model and tools and publishes the
-- result; the platform's consumer of results settles the future that the executor waits for. The
-- scheduler (services/scheduler-service) starts workflows through the platform's internal endpoint.
-- The WebSocket service (services/websocket-service) sends the status events of an execution to the
-- clients that joined its room.
--
-- The files, and the code that they model:
--
-- Prelude, Json, Outcome: the shared vocabulary. Prelude has Boolean tests, dicts as association
-- lists in insertion order, lists and signed integers over the native numbers. Json has the values
-- of a context, with floats as integers over powers of two, infinities and NaN, and in Json/Compare
-- Python's comparison operators on them. Outcome is a Python call that returns or raises.
--
-- Workflows (services/platform-api/src/workflows): Steps has a step as the dict that the code reads
-- and the stored definition; Validator is validate_steps, loop by loop, and Validator/Spec what it
-- is to accept; Definitions is the creation of a definition (schemas.py, service.py) and the reads
-- of the stored ones; Endpoints puts the guards of router.py around them.
--
-- Executions (services/platform-api/src/executions): Condition is condition.py. Transform is
-- transform.py, on a heap of dicts and lists that have addresses, since its result shares objects
-- with the context. Dispatcher is dispatcher.py; a future is shared by the table and by the
-- executor, so futures stand on a heap and have an index. ResultConsumer is the handling of the
-- entries of the result stream in redis_consumer.py, and ResultConsumer/Loop the readings around
-- it, with acknowledgements that Redis may refuse and that the end of the service may reach.
-- Session, AgentStep and Executor are executor.py:
-- Session has the state (the object of the execution, the two tables, the streams, the dispatcher,
-- a counter of effects) and the monad of actions that return or raise; AgentStep is
-- dispatch_agent_step; Executor is execute_workflow, with one definition for each group of its
-- statements.
--
-- Agents (services/agent-orchestration/src): Tools, HttpGeneric and SqlQuery are tools/;
-- ModelRouter is router/model_router.py; Graph is runner/nodes.py and the graph of
-- runner/agent_runner.py; Runner is AgentRunner.run; StubModel is router/stub_model.py; Consumer is
-- consumer/redis_consumer.py with the publisher and the log.
--
-- Access (services/platform-api/src/rbac, auth, users, tenants and audit): Permissions is the table
-- of the roles; Users is get_current_user, authenticate_user and require_permission; Accounts has
-- the tables, the creation of users and tenants and the audit log; Login is auth/jwt.py,
-- create_tokens and the login endpoint; Sessions is the tenant of a connection that requests use
-- one after the other (database.py, get_scoped_db), where a session gets back the connection that
-- it has released. Elsewhere queries read the tables as a database role does that the row-level
-- policies exempt, which auth/dependencies.py and auth/router.py need too.
--
-- Pipeline: an agent step through both streams, from the task that the executor makes, over the run
-- in the agent service, to the future that the platform's consumer settles.
--
-- Triggers: Create is create_execution (executions/service.py) and the internal endpoint
-- (internal/router.py); Endpoints is executions/router.py with the queries of
-- executions/service.py; Webhooks is webhooks/service.py and the public endpoint of
-- webhooks/router.py, and Webhooks/Endpoints the endpoints with which a tenant manages its
-- webhooks. Digest is hmac.compare_digest on texts. A request body is a text, and a stored row is
-- found by its id.
--
-- Migrations (services/platform-api/migrations/versions): the statements of each version on a
-- schema of tables, where `none` is a statement that PostgreSQL refuses; Chain runs the versions up
-- and down. The downgrade that deletes the roles is taken to find no user that has one of them.
--
-- Scheduler (services/scheduler-service/src): Dispatch is dispatcher.py, with the clock and the
-- locks of Redis; Jobs is job_loader.py; Worker is the loads of worker.py, of which there are any
-- number.
--
-- Sockets (services/websocket-service/src): the handlers of main.py and the handling of an entry in
-- consumer/redis_consumer.py, on the sessions and rooms of Socket.IO.
--
-- What is taken from outside is an argument: the clocks and UUIDs, the success of writes to Redis
-- and to the log, jmespath, PyJWT, bcrypt, HMAC, pydantic's readings, sqlparse, DNS and HTTP,
-- LangGraph's reducer of messages and its limit of steps, the chat models, APScheduler's reading of
-- crontabs. What may differ from call to call is read at a counter or a moment. LangGraph's reducer
-- is assumed to put new messages at the end, where a theorem says so. A commit of the database and,
-- outside of ResultConsumer/Loop, an acknowledgement of Redis are taken to succeed.
--
-- The executor's loop may run for ever, so it has fuel, one unit for each head of the loop, and
-- `none` is an execution that is still running. A theorem gives enough fuel for workflows on which
-- a measure falls, and another one a valid workflow for which no fuel is enough. A run of the
-- agents' graph has the limit of steps that LangGraph has, and a theorem says which limit is
-- enough. All other loops are structural recursions.
--
-- The executor takes conditions and transforms as arguments: any functions of the configuration and
-- the context that return or raise and change nothing else. Transform shows when apply_transform is
-- such a function. Not modelled: the endless loops around the readings of the streams of tasks and
-- of statuses, the creation of consumer groups, logging, the start of the services and their
-- settings, short-term memory, and the engines and pools of SQLAlchemy.
pub mod Prelude
pub mod Json
pub mod Outcome
pub mod Workflows
pub mod Executions
pub mod Agents
pub mod Access
pub mod Triggers
pub mod Pipeline
pub mod Scheduler
pub mod Sockets
pub mod Migrations
