-- ===== src/Lib.antt =====
-- The task queue of el-pulpo-ai.
--
-- The mastermind keeps tasks in a PostgreSQL table. Workers claim them over gRPC, keep the lease alive
-- by heartbeats, report progress and log lines, and complete, fail or park them with a pull request;
-- administrators create, edit, requeue, delete, review and finalize them; a reaper takes back the
-- claims whose lease has run out. Administrators use a web UI with forms, the AdminService, or what calls
-- it: the command elpulpo, and the tools of an MCP server. A worker process holds at most one task and serves it to a coding
-- agent.
--
-- Files and code:
--   Prelude            names of the library, Boolean tests on native numbers, list helpers, ℤ, and
--                      the functions of Go's strings and strconv that the code calls (Prelude/Texts)
--   Store/Row          the columns, errors and statuses: internal/mastermind/store/tasks.go, logs.go
--   Store/Query        SELECT, UPDATE and ORDER BY on a list of rows; Store/Query/* has their laws
--   Store/Transitions  allowedFrom and allowedFromStrings of store/transitions.go
--   Store/Tasks        CreateTask, GetTask and ListTasks of store/tasks.go (create_task, ...); Store/Tasks/Pages
--                      reads the pages one after another
--   Store/Edit         UpdateTask, UpdateTaskLinks, DeleteTask and RequeueTask of store/tasks.go
--   Store/Claim        ClaimTask of store/claim.go (claim_task)
--   Store/Lifecycle    Heartbeat, UpdateProgress, ReportResult, ReapStale and CountPending of
--                      store/lifecycle.go
--   Store/Park         OpenPR, SetJiraURL, RequestReview, FinalizeTask of store/open_pr.go, jira.go,
--                      finalize.go
--   Store/Logs         AppendTaskLog and ListTaskLogs of store/logs.go
--   Store/Workers, Store/Dashboard, Store/AgentDetail
--                      store/workers.go, dashboard.go, agent_detail.go
--   Store/History      the calls that change the store, and sequences of them
--   Auth               the interceptors and middlewares of internal/auth/grpc.go and http.go
--   Grpc/Status        status codes, replies and counters (internal/mastermind/metrics/metrics.go)
--   Grpc/Server        the TaskService, internal/mastermind/grpcserver/server.go
--   Grpc/Admin         the AdminService, internal/mastermind/grpcserver/admin.go
--   Gateway            the gRPC server of cmd/mastermind/main.go: policy, interceptor, services
--   IssueRefs          internal/mastermind/issuerefs/issuerefs.go and its regular expressions
--   Http/Form          parseTaskForm, formFromTask of internal/mastermind/httpserver/handlers.go
--   Http/Pages, Http/Tasks
--                      the handlers of handlers.go, those that only read and those that change
--   Http/Dashboard     the handlers of httpserver/dashboard.go
--   Http/Initials      initials of dashboard.go, the letters of an avatar
--   Http/Routes        the routes of httpserver/server.go
--   Reaper             one tick of internal/mastermind/reaper/reaper.go
--   Worker/Client      the handle on a task, internal/worker/taskclient/taskclient.go
--   Worker/State       the state behind the tools, internal/worker/mcpserver/state.go
--   Worker/Tools       the tools of the coding agent, internal/worker/mcpserver/tools.go
--   Worker/Runner      the unattended claim loop, internal/worker/runner/runner.go
--   Gateway/Remote     a call of the AdminService over the network, with a token
--   AdminMcp           the tools of the MCP server, internal/mcpserver/tools.go
--   Config             the checks of internal/config/config.go; Config/Mcp has internal/mcpserver/config.go
--   Cli/Flags          Go's package flag: the arguments up to the first that is no flag
--   Cli/Numbers        the conversion of an int to an int32
--   Cli/Format         what is printed of tasks and workers, internal/cli/format.go and workers.go
--   Cli/Command, Cli/Tasks
--                      the commands on tasks, internal/cli/tasks.go, up to the call that they make
--   Cli/Commands       Run of internal/cli/cli.go (run_cli), the client, the errors, and workers.go
--   Demo/Seeder, Demo/Worker
--                      the synthetic load of cmd/demo/main.go
--   System             the program cmd/mastermind: calls, requests and ticks on one database
--
-- How the model corresponds to the code. A table is a list of rows, a statement is a function on it, and
-- the text of each SQL query is translated clause by clause: its WHERE is a test on a row, its SET a
-- function of a row, its ORDER BY a strict order. Rows that compare equal under ORDER BY come in the order
-- of the list, and a database that reads the rows in another order is another list (`Reordered`). A call is given an `Env`: the time of now(), the value of
-- gen_random_uuid(), and for each of its statements whether the database answers it. A statement that is
-- not answered has no effect; one that takes effect and whose answer is lost leaves the tables of an
-- answered one, and only the reply differs, as that of a failed statement. Times are natural
-- numbers of microseconds, UUIDs natural numbers, Go's int and SQL's integer are unbounded integers
-- (but a conversion to int32 wraps around), and counters natural numbers. `claim_task` is given the rows that other transactions hold locked,
-- which FOR UPDATE SKIP LOCKED passes over. A call of the store is one step, but for AppendTaskLog,
-- whose check and whose writes are two functions: what it writes may come at any later time than its
-- check (`writes_log`, and `late_line` of System), and its handler joins the two when nothing comes
-- between them. ClaimNext
-- of the worker is three steps and their composition; the handle that Go returns beside
-- ErrAlreadyHaveTask is the `current` of the state, and a raced claim is given back at once, where the
-- code does it in a goroutine. A call over the network meets a `Trip`: it is answered, lost, or its
-- reply is lost. A handler of the web UI is a function from the state of the mastermind to the state
-- after it and the response; a page is the data that its template is given, and whether a template can
-- show it is a parameter. What ServeMux makes of a path that
-- it cleans up is a parameter, and such a request is redirected. A regular expression is a
-- list of parts, matched with the preference of Go's regexp: as much as possible first, then less.
--
-- A command line of elpulpo is read into a mistake or a call with what is printed of its reply, and then
-- carried out; printed tables and JSON objects are lists of rows and fields.
--
-- The draws of rand in the demo are arguments, any natural number for an IntN(n), which leaves its
-- remainder by n. What others do to the mastermind between the calls of a turn of the runner or of the
-- demo's worker is an argument of the turn.
--
-- Parameters: encoding/json and JSONB (`PayloadCodec`, `PayloadReader`, `ObjectCodec`, `ValueCodec`,
-- `JsonLibraries`, `json_valid`), google/uuid (`UuidCodec`), the collation of texts, the local time of
-- forms, url.PathUnescape and html/template and the cleaning of paths (`WebLibraries`), strconv.ParseInt and time.ParseDuration
-- (`FlagLibraries`), time.Parse, files and the standard input (`Terminal`), the package unicode
-- (`Unicode`), and what envconfig has read of the environment. No loop needs fuel: every one runs over a
-- list, a text or a number of rounds.
--
-- Not modelled: texts of errors and of the replies of tools, the histogram and the gauge of the metrics,
-- timers and polling, a negative visibility timeout, overflow of 32-bit columns; of the web UI the
-- templates and two of their functions (logTime, attemptPct); transports, listening and shutting down; of
-- the command line the timeouts, the encryption and the layout of what is printed.
pub mod Prelude
pub mod Store
pub mod Auth
pub mod Grpc
pub mod Gateway
pub mod IssueRefs
pub mod Http
pub mod Reaper
pub mod Worker
pub mod AdminMcp
pub mod Cli
pub mod Demo
pub mod Config
pub mod System
pub mod Examples
