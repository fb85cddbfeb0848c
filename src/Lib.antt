-- ===== src/Lib.antt =====
-- ccc, a cloud contact centre: a verification library of its core services.
--
-- The program is a Go server. Services under internal/domain keep their state in MySQL through
-- repositories (internal/infrastructure/mysql) and command the media layer through an interface;
-- HTTP handlers and event loops call the services; some of these stand in internal/application and
-- work on the services of the domain. Modelled are five parts of the domain, each with the
-- statements of its repository, and four of the applications:
--
-- Call, internal/domain/call/service.go. Entity has the records and enumerations of entity.go and
-- errors.go; Table what the INSERT and UPDATE statements of call_repo.go write; World the state
-- (tables, commands sent) and the calls of repositories and of the media layer; Control, Transfer,
-- Create and Supervise the methods, one function each, in the words of the source (EndCall is
-- end_call); Durations is CalculateDurations. Lifecycle is the specification: the diagram of the
-- states, when a record is well formed, and how one request may change a row. Request makes a call
-- of a method a value. Evolution proves the step of each method; History, Atomicity, EventLog,
-- Timing and Supervision state the results.
-- Flow, internal/domain/routing. Graph is the graph of an IVR flow (entity.go), Validate and Search
-- are ValidateGraph (validator.go), Service and Editing are IVRFlowService (service.go) with the
-- statements of ivr_flow_repo.go. Validate/Correct says when a graph is well formed, Locks is about
-- the editing lock and publication, Sound and Published about histories of requests.
-- Presence, internal/domain/identity/service.go, AgentPresenceService, with the statements of
-- agent_presence_repo.go. Service has the methods, Timer the two ends of the goroutine that waits
-- for after-call work, Reset is ResetGhostAgents. Moves has the diagram of an agent's states and
-- how a row may change, Wrapping the outcomes of SetACW; History, Ghosts, Timers and Stale state
-- the results.
-- Campaign, internal/domain/campaign/service.go, with the statements of campaign_repo.go and the check
-- of dnc_repo.go. Service and Cases have the methods of CampaignService, World the rows; Lifecycle is
-- the specification; Steps and Counts prove the step of each method, History, Retries and DoNotCall
-- state the results.
-- Acd, internal/application/acd/service.go: the dispatcher of queued calls. World has its keys in
-- Redis, and Backend, a record of the interfaces that it takes (the call lifecycle, presences,
-- members, groups, calls), on a state of their own. Member is the codec of queue members, Queue and
-- Order the sorted set, Service and Tick the methods; Pick, Choice, Dispatch, Expiry, Overflow, Ordered and
-- History prove their properties. Groups is what skill_group_repo.go loads.
-- Dialer, internal/application/dialer/service.go, on the world of Campaign. Service has the tick of
-- the loop in each mode, Calls the placing of calls and their results; Slots, Placed and Bounds are
-- about the calls of one tick.
-- Ivr, internal/application/ivr: the engine that takes a call through a flow. Engine has Execute and
-- DefaultEngine with the handler of sub flows, Basic, Routing, Interaction and Integration the other
-- handlers, Session and Variables the state of a run, Config the settings of nodes, Conditions
-- evaluateCondition. Providers has the interfaces that handlers call and the parts of Go's standard
-- library, as records over a state of their own. Walk says what a run is, Manners and Registry what
-- handlers keep to, Execution, SubFlows and SelfReference state the results.
-- Lifecycle, internal/application/lifecycle/service.go, joins the worlds of Call, Presence and Campaign
-- with the counters of internal/infrastructure/redis/concurrency.go. Service has EndCall, AnswerCall
-- and the transitions, Inbound is HandleInboundCall, which runs the engine of Ivr, Hooks the
-- goroutine of EndCall. Frame, Rows and Joint are about the parts of the world that each acts on;
-- Ending, Slots and History state the results.
-- Ticket, internal/domain/ticket, with the statements of ticket_repo.go. Service has the methods of both
-- services, World the rows of tickets, templates and comments; Lifecycle is the specification, Steps
-- proves the step of each method and History states the result.
-- Prelude holds what they share, Examples the theorems and definitions at concrete inputs.
--
-- How the code is modelled. A method is a function from a world to a result and a world; what it
-- wrote before it failed stays written. A repository gives out copies of rows, as the MySQL one does.
-- The database, the id generator, the media layer and json.Unmarshal are not part of the repository:
-- a record Env holds their answers. Each statement is numbered, and db_fails says which ones fail, so
-- that a theorem without a hypothesis on it holds whatever statements fail. The media layer answers
-- by the commands sent so far. Identifiers and times are natural numbers, times in nanoseconds; each
-- method reads the clock once, where the source may read it twice. Durations are whole seconds and
-- exact, where Go rounds a float64, which differs only for spans of months. Counters do not wrap:
-- they are Go ints of 64 bits that grow by one. Formatted texts are kept as data. Methods are atomic
-- with respect to each other, except for the timers of after-call work, whose ends are steps of their
-- own. The hooks of presence changes are recorded, not run.
--
-- Commands of Redis are numbered like statements; one that reports an error has done nothing. Times of
-- the dispatcher are milliseconds. The percentages and ratios of campaigns, float64 in the source,
-- are exact and in thousandths; scores, float64 too, are integers. The calls that the dialer spawns
-- are a list of goroutines that have not run; each is a step of its own.
--
-- The search of ValidateGraph runs on fuel: one for the start and one for each exit of the graph,
-- which is enough, since each node is expanded once. Enqueue runs on fuel that counts the groups a
-- call may overflow to; it is enough when their chain ends within it.
--
-- A run of a flow has the 1000 rounds of Execute. Sub flows nest: the stack of the process has room for
-- a number of them, an argument of the engine, and a run that needs more overflows it. Scores of
-- speech services are of a type of floats that is a parameter, as are the texts of numbers. An ESL
-- command is kept as data. The lifecycle service keeps its calls of the bus, webhooks, surveys,
-- inspections, tickets and customer records in a list, with their arguments.
--
-- Not modelled: the timers of the two tickers, the listing and counting queries, the columns that only
-- they read, the events of FreeSWITCH that call the lifecycle service, the rest of internal/domain
-- and internal/application, the HTTP layer, the clients of outside systems and the web client.
pub mod Prelude
pub mod Call
pub mod Flow
pub mod Ivr
pub mod Presence
pub mod Campaign
pub mod Acd
pub mod Dialer
pub mod Lifecycle
pub mod Ticket
pub mod Examples
