-- ===== src/Lib.antt =====
-- Pademelon: a dashboard for the virtual machines of a TrueNAS host, written in Go.
--
-- A poller asks libvirt and the guest agents for the state of every machine and puts it into a
-- cache (internal/model): internal/libvirtsrc polls, with internal/agent for the guests, and the loop in
-- cmd/pademelon decides when. The web server (internal/web) shows the cache and, behind a token, takes
-- requests that change machines. Those go to the action layer (internal/actions), which queues them
-- as jobs and runs each job in a goroutine of its own against libvirt, the guest's agent and the
-- TrueNAS middleware (internal/truenas). Snapshot lists come from internal/snapshots.
--
-- The files, and what they model:
--   Base            shared names: tests on numbers and texts, lists, results, tables, texts
--   Clocks          internal/clocks/clocks.go, in nanoseconds
--   Model           internal/model/model.go: the records of a machine, and Cache
--   Truenas         internal/truenas/truenas.go: the pure helpers
--     Calls         request, readLoop, failPending: the calls in flight; Fates is the contract that
--                   they refine, one fate per call
--     Client        Run, ensureConnected, drop, setState: the connection and its status
--     Storage       Snapshots, CreateSnapshot, RollbackSnapshot, DeleteSnapshot, rpcError
--     Wire          request, the messages of readLoop, login, dial, and the checks of New
--   Actions         internal/actions/actions.go, by part:
--     Verb          Action, ParseAction, allowedStates
--     Job           Job, JobStep, the sentinel errors, stepsFor, the write of setStep
--     Effects       the calls that leave the package, the state of a running job, and the monad
--                   in which jobs are written; Triples has rules for what a run of calls keeps
--     Guest         rawAgentCall, findDomain, shutdown, waitStopped, reboot
--     Restore       restore, executeDelete
--     Snapshot      snapshot, thaw, frozenMark, frozenClear, snapshotName, truenasDatasets
--     Runner        execute, run, detailFor
--     Registry      register, Submit, SubmitRestore, SubmitDelete, validateSnapshot, sweepLocked;
--                   List stands in Registry/Oldest, ShutdownAll in Registry/Bulk
--     Sweep         SweepFrozenOnce, SweepLoop, forceThaw, sweepAgents
--   Snapshots       internal/snapshots/snapshots.go: Request, RefreshAll, New, and the
--                   stretches of fetch and ValidateKnown; Fetch and Check compose those, and
--                   Restores joins the check to the restores that it guards
--   Web             internal/web, by part:
--     Auth          auth.go: the token gate, its cookies and its backoff
--     Theme         theme.go; Page puts the theme into the page
--     Answers       actions_routes.go: bodies, and status codes by the outcome of a submission
--     Routes        web.go, actions_routes.go, truenas_routes.go: the handlers
--     Config        web.go: New
--     Serve         web.go: Handler, with the guards around each route
--   Agent           internal/agent/agent.go: the queries, and Filter for what gets no row
--   Libvirt         internal/libvirtsrc/source.go, by part:
--     Connection    connect, Close, WithConnection, the event subscription, and the lock
--     Memory        balloonMemory
--     Rates         fillDiskLive, fillNicLive, cpuPercent, and what forgets their samples
--     Watch         logged transitions, enableStatsPeriod, the hints of agent events
--     Shapes        what is read from the domain's XML, stateName, domainNameRE
--     Fill          fillFromAgent, memory and the loops of inspect
--     Inspect       inspect, Poll
--     Start         New, secondsInt32
--   Cmd             cmd/pademelon/main.go, by part:
--     Flags         the resolve functions, newLogger, probe
--     Start         main up to the point where it serves
--     Wiring        main from there on: the parts that the server gets
--     Loop          pollLoop
--   Tests           concrete environments, and the theorems applied to them
-- The other children of such a file (Restore/Safety, Snapshot/Marked) hold proofs about it, named
-- for what they prove.
--
-- How the code is rendered. A job is a function of the monad M over a World: the trace of calls
-- made so far, the steps of the job, and the table of frozen guests. Each call to libvirt, to an
-- agent, to the middleware, to the clock or to the poller's snapshot is answered by an Env, a
-- record of functions of the whole trace; it may answer the same call differently each time, so a
-- theorem about every Env is about every behaviour of the outside. The registry is a Table from
-- ids to jobs, and what goroutines do to it is a step relation (Registry/Submission). A running server goes on by requests and by
-- the submissions of its bulk shutdowns, one at a time and in any order (Web/Serve/Requests).
--
-- Bounds and fuel. Durations are natural numbers of nanoseconds; those of the configuration are
-- positive after New. The loop of waitStopped runs on fuel: the reboot bound divided by the polling
-- interval, and two more rounds, which is enough for a clock that moves on by at least what was slept
-- (Guest/Waiting). The loop of ValidateKnown runs on fuel too, and as many looks as its context
-- lets it have are enough (Snapshots/Check). The backoff shifts by ten places at most, so it stays
-- far below the width of a time.Duration; the seconds for libvirt wrap around at 32 bits
-- (Libvirt/Start), and the latest stamps of the balloon wrap around in time.Unix (Libvirt/Memory).
--
-- Conventions. A map is a list of entries, its order standing for Go's order of iteration. Texts
-- are valid UTF-8, and %q is a text between plain quotes. What net/http and a browser make of the value of
-- a cookie is a parameter (Web/Auth/Gate). Logging is left out. newID, the printing
-- of times and numbers, and the decoding of JSON are inputs.
--
-- Not modelled: floating-point readings (percentages, the drift of a guest's clock), the decoding of
-- JSON and XML, go-libvirt, the websocket, net/http with its choice of a route and its headers, the page
-- itself, and the wait of main for a signal.
-- Locks are the steps' atomicity, except the lock of libvirtsrc, which is a field of its state.
pub mod Base
pub mod Clocks
pub mod Model
pub mod Truenas
pub mod Actions
pub mod Snapshots
pub mod Web
pub mod Agent
pub mod Libvirt
pub mod Cmd
pub mod Tests
