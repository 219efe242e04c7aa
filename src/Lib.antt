-- ===== src/Lib.antt =====
-- A model of the supervisor of Garrison, in the parts that decide what reaches the outside world
-- and when: a Go program that runs agents for the departments of a company, on a database that
-- agents, an operator's dashboard and the supervisor share.
--
-- The parts, and how they interact. Agents ask for external actions by the verb
-- request_external_action, which classifies the action by the tier policy and queues a row; the
-- operator approves rows in the dashboard; the dispatcher of the action broker claims a row, calls
-- GitHub and records the outcome. Webhooks come in through the ingress handler, which turns a
-- signed delivery into one ticket. Tickets and notifications are events: the event dispatcher
-- routes each to a handler, at most one at a time for an event, from notifications and from a poll
-- of the outbox. The handler of a ticket spawns an agent: a first transaction admits it under the
-- cap of its department, the slot of its agent, the throttle gates and the dependency of its ticket;
-- then a session reads the agent's output line by line until it ends, commits the agent's finalize
-- at most once, and leaves the terminal rows. The throttle gates also stand before a new ticket. A
-- standing task has a schedule expression; the tick claims the tasks that are due and fires each,
-- as a ticket or as a oneshot event.
--
-- Files and code (Go paths are below supervisor/internal):
--   Broker/Policy       actionbroker/policy.go: Classify, floor, policy, RegisterTestPolicyEntry
--   Broker/GitHub       actionbroker/github.go: what PostComment makes of a response
--   Broker/Tables       store/m11_action_broker.sql.go: pending_actions and its outcomes
--   Broker/Dispatcher   actionbroker/dispatcher.go: Handle, applyTierGate, markExecuted, failRow
--   Broker/Request      garrisonmutate/verbs_actions.go, with the audit row of audit.go
--   Broker/System       the three together, with the approval of the dashboard's
--                       dashboard/app/[locale]/(app)/admin/outbox/actions.ts
--   Schedule/Expr       schedule/expr.go: Parse; Schedule/Grammar is its specification
--   Schedule/Slots      schedule/expr.go: Next, MinInterval
--   Schedule/Tasks      the tables of scheduled tasks with the queries of store/m9_schedule.sql.go;
--                       schedule/template.go
--   Schedule/Tick       schedule/tick.go: tickOnce, fireClaimedTask; schedule/fire.go
--   Schedule/Validate   schedule/validate.go: ValidateTask
--   Events/Dispatcher   events/dispatcher.go: Dispatch, in two halves around the handler's run,
--                       SetDynamicRoutes, Channels
--   Events/Poller       events/poller.go: pollOnce
--   Throttle/Gate       throttle: Check, CheckDeptWeekly; concurrency/cap.go: CheckCap
--   Throttle/Fire       throttle: FirePause, FireBudgetDefer, FireDeptWeekly, FireIngressRateCap;
--                       spawn/spawn.go: the gate of prepareSpawn
--   Ingress/Connector   ingress/connector.go: the interface of a provider
--   Ingress/Signature   ingress/signature.go
--   Ingress/GitHub      ingress/github.go and render.go
--   Ingress/Handler     ingress/handler.go and idempotency.go: the handler and its transaction
--   ClaudeProto/Health  claudeproto/init.go: CheckMCPHealth, PendingMCPServers
--   ClaudeProto/Events  claudeproto/events.go
--   ClaudeProto/Decode  claudeproto/router.go: decodeAssistant, decodeUser, summarizeDetail and
--                       what routeStreamEvent and routeResult decode
--   ClaudeProto/Router  claudeproto/router.go: Route over the interface Router
--   Spawn/Prepare       spawn/spawn.go: prepareSpawn; spawn/m8.go: checkDependencySatisfied;
--                       spawn/inflight.go: the slots
--   Spawn/Inflight      spawn/inflight.go: AgentInflight with the closures it returns
--   Spawn/Policy        spawn/pipeline.go: FinalizePolicy, which fills the interface Router
--   Spawn/Run           spawn/pipeline.go: Run, runLoop, dispatchStreamLine
--   Spawn/Adjudicate    spawn/pipeline.go: Adjudicate; spawn/exitreason.go; the gates by role and
--                       column of spawn/spawn.go
--   Spawn/Payload       finalize/tool.go: FinalizePayload; its redaction in spawn/finalize.go and
--                       vault/scanner.go
--   Spawn/Diary         spawn/finalize.go: serializeDiary, escapeYAML
--   Spawn/Finalize      spawn/finalize.go: WriteFinalize
--   Spawn/Session       spawn/runner.go: runClaudeSession; spawn/spawn.go: the terminal write
--   FinalizeTool/Fields    finalize/tool.go: the checks of the fields
--   FinalizeTool/Validate  finalize/tool.go: Validate, ValidateOneshot
--   Containers/Demux    agentcontainer/demux.go
--   Common              tests, lists, results, integers and byte strings that the parts share
-- A child module of one of these holds its theorems, and the Examples of a part its tests.
--
-- Conventions. The database is a record of tables. A transaction is a chain of calls that each may
-- fail: which of them do is an input, the Run of an operation, and so is what the code meets
-- outside: the vault, the HTTP response of GitHub, JSON decoders, regular expressions, HMAC-SHA256,
-- clocks, the palace. A call that fails rolls back: the tables are those from before; what the palace
-- has taken, also in a call that then failed, stays. Transactions are atomic steps; row locks that others hold are an input of a claim. Logging is left out. An instant is a number of
-- nanoseconds, of the native natural numbers; instants before 1970 are not modelled.
--
-- The loop of a session runs over the sequence of what its select receives: lines, the end, timers,
-- cancellation. Statuses and exit reasons are constructors; a reason formatted from parts holds the
-- parts.
--
-- Bounds and fuel. Parse computes within int64: a number of digits beyond it is the error of Atoi.
-- The loop of Next for weekly expressions has fuel 8, since a weekday comes round within seven days.
-- Decimal digits of a number have the number plus one as fuel, which is at least the count of its
-- digits. The demultiplexer has the count of its bytes as fuel, and each round takes at least eight.
-- Counts of rows and ids grow without bound.
--
-- Not modelled: the token bucket of ingress/ratecap.go, the launch of an agent's subprocess or
-- container and the oneshot variant, hygiene, skills, chat, the vault and the configuration, which are
-- parts to come; containers but for the demultiplexer; the generated queries beyond those named,
-- servers, clients and wiring, which are I/O; the dashboard beyond the approval.
pub mod Common
pub mod Broker
pub mod Schedule
pub mod Events
pub mod Throttle
pub mod Ingress
pub mod ClaudeProto
pub mod Containers
pub mod FinalizeTool
pub mod Spawn
