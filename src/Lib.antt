-- ===== src/Lib.antt =====
-- A model of the platform's core: the state machine of a conversation, the outbox to the CRM, the
-- outbound queue with its two workers, the path of an inbound message, the agent that answers it,
-- the login of the administrators and the replay of conversations.
--
-- The parts, and the files that model them:
-- Fsm is core/fsm. Fsm/Schema has the configuration and its two validators, Fsm/Engine the class
-- FSMEngine (the constructor is `init`, `process_event` scans the transitions by `scan` and runs
-- the one found by `run_transition`, `enter_target` and `commit`), Fsm/Guards and Fsm/Actions the
-- two default registries, Fsm/Actions/Context the readers of the context that the actions share.
-- Crm is the CRM side: Crm/Outbox is adapters/storage/repositories/crm_outbox_repo.py over the two
-- tables, with the partial unique index of adapters/storage/models.py as `indexed` and the session of
-- adapters/storage/db.py as `Transaction`, of which PostgreSQL refuses every statement after one that
-- it refused; Crm/Worker is
-- core/services/crm_worker.py.
-- Outbound is the queue: Outbound/Queue is outbound_queue_repo.py and silenced_repo.py of the same
-- folder, Outbound/QueueWorker is core/services/queue_worker.py and Outbound/CampaignWorker is
-- core/services/campaign_worker.py.
-- Inbound is core/services/inbound_handler.py. Inbound/Handler has `handle` in steps that end in
-- one another as the early returns have it, Inbound/Profile the lead and its session,
-- Inbound/Media voice notes and images, Inbound/Branches the handoff to a branch,
-- Inbound/Debounce the debounce of bursts, Inbound/Orchestrator core/services/orchestrator.py and
-- Inbound/Store the repositories of events, leads and sessions. Inbound/HandoffService is
-- core/services/handoff_service.py over the same tables.
-- Crm/Monday is adapters/crm/monday_adapter.py, the CRM that the worker writes to: Stages has the
-- hierarchy of the stages, Columns the columns and their differences, Api the requests and what is
-- read in their answers, Upsert `upsert_lead` and Adapter the other operations.
-- Agent is core/services/conversation_agent.py: Agent/Policies has core/fsm/tool_policy.py,
-- core/services/repetition_guard.py and core/services/friction_detector.py, Agent/Messages what the
-- model is told, Agent/Answer the texts of the answers, Agent/Ports the loop of the tools and
-- Agent/Respond `respond`.
-- Login is the login of the administrators. Login/Attempts is core/services/login_attempt_service.py
-- with its repository, Login/Accounts core/services/admin_auth_service.py with admin_user_repo.py and
-- admin_totp_repo.py, Login/Tokens core/auth/jwt_handler.py with `get_current_user` of
-- api/dependencies.py, and Login/Router, Login/TwoFactor and Login/Users are api/routers/auth.py.
-- Replay is core/services/replay_engine.py over the same engine.
-- Knowledge/Chunker is the sliding window of core/services/document_chunker.py.
-- Messaging is the port to the messaging provider. Its `recorder` logs each request before it is
-- answered, so that a request that fails is counted too.
-- Base has what all parts share: results and exceptions (Base/Effects), JSON values (Base/Values),
-- dictionaries, texts and lists. Tests runs the definitions at concrete inputs.
--
-- How the parts interact: the handler classifies a message, runs an engine on the event of the
-- classification, and the engine's actions write to the outbox, move the session and send
-- messages. The CRM worker later takes the rows of the outbox to the CRM; it makes the lead of each
-- row anew, so what `upsert_lead` leaves in the attributes of a lead is not seen by a later row. An opt-out in the handler
-- silences a phone, which the handler and the outbound worker read.
--
-- Conventions: a method is a function that passes the tables and an exception is a `Result`; what
-- was written before an exception stays written, since each repository call is its own
-- transaction. A time is a number of seconds, but of microseconds in Login, an identifier a
-- number, and a float its value times a power of ten that its definition names. A dictionary is
-- the list of its entries, the first of a key being the one that counts. Every loop is structural
-- on the list that it runs over or, in Agent, on the rounds that the code allows, so no fuel is
-- needed, but for the loop over the positions of a text in Knowledge/Chunker: there the fuel is
-- one more than the characters, which is enough since each round moves on where the overlap is
-- smaller than the chunk size.
--
-- Not modelled: the slot extractor and the media services, whose requests are logged in the world
-- and may be answered by an exception, are parameters of the handler, and so is
-- the agent, whose own parameters are the model and the skills; so are the messaging provider, the
-- HTTP calls, case mapping, regular expressions and the rendering of templates, which are library
-- code or services. The statistics of the repositories, the administration panel, the adapters of
-- spreadsheets and models, the audit log, the trace of a conversation for display, log output and
-- the wiring of the routes are left out. bcrypt, python-jose and pyotp are parameters of Login.
pub mod Agent
pub mod Base
pub mod Fsm
pub mod Crm
pub mod Messaging
pub mod Outbound
pub mod Replay
pub mod Inbound
pub mod Tests
pub mod Knowledge
pub mod Login
