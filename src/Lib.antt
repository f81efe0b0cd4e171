-- ===== src/Lib.antt =====
-- Orchestration, a small container orchestrator without containers: a model of its control plane
-- and of its node agent.
--
-- The program. Deployments, pods and nodes are hashes in Redis, and every process of the system
-- talks to the others through them. The API (internal/api) validates deployment requests and stores
-- them. Three controllers (internal/controller) work on what is stored: the replica controller
-- creates and removes pods until a deployment has its desired count, by way of the scheduler
-- (internal/scheduler) and its atomic reservation of node capacity (internal/capacity); the
-- autoscaler moves the desired count with the measured load; the health controller evicts nodes
-- whose lease expired. The ingress (internal/ingress) writes the routes of the running pods into the
-- configuration of a reverse proxy, and the dashboard of the API serves the state and the logs to
-- browsers. On a node, the agent registers its capacity and renews its lease
-- (internal/node), and its supervisor (internal/supervisor) starts, probes, restarts and stops the
-- processes of its pods, on commands that the scheduler and the replica controller queue.
--
-- The files.
--   Prelude        lists, signed integers, Go's 64-bit arithmetic, byte strings, decimal texts,
--                  sorting, and the floating-point numbers as a parameter
--   Redis          what is relied on of the server: its state and commands are the record Redis,
--                  its documented behaviour RedisLaws and, for SCAN, Redis.Scan.ScanLaws; Memory is
--                  a server that satisfies them
--   Client         internal/redisclient: one action for each call; Keeps and Returns are the rules
--                  for what an action keeps of the database and what it returns, Gives both at
--                  once, Runs those for what an action returns and leaves from what held before it,
--                  Yields those for what never fails, Calm those for surroundings that serve every
--                  call and leave the database alone, Acts and Idle those for what an action does to
--                  the machine
--   Schema         internal/schema/schema.go: Keys, Fields, Codec; KeyLaws, RoundTrip, Avoids and
--                  Codec.Requests are about them
--   Capacity       internal/capacity/capacity.go: both Lua scripts, Reserve and Release. Safe and Sane
--                  are the invariants of the database, and Guard is the interface between an
--                  invariant and the code that it holds for, which the scheduler is proved over
--   Scheduler      internal/scheduler/scheduler.go: LiveNodes, bestFitOrder, scheduleOne,
--                  ScheduleReplicas
--   Events         internal/events/events.go: Publish
--   Controller     Autoscale: internal/controller/autoscale.go, its script, Evaluate, EvaluateAll;
--                  Replica: internal/controller/replica.go, selectVictims, removePods,
--                  ReconcileDeployment, reapOrphanPods, ReconcileAll; Health:
--                  internal/controller/health.go, the eviction script, EvictNode, SweepOnce,
--                  nodeIDFromStatusKey
--   Api            Validate: internal/api/validate.go; Store: internal/api/store.go; Server: the
--                  handlers of internal/api/server.go; Views and Logs: those of
--                  internal/api/dashboard.go, the snapshot of the state and the stream of logs; Ids,
--                  Order, Frames, Stream and Sent are about the log entries of the frames
--   Ingress        internal/ingress/ingress.go: Backends, Render, Sync with its write and reload, and
--                  the loop of Run; Enter (the file's entries), Canonical (what is rendered does not
--                  depend on the server's order), Order, Installed and Loop are about them
--   Node           internal/node/node.go: NewRegistrar, Register, ReconcileAllocations
--   Supervisor     Commands, Process, Ports, Spawn, Consumer, Reconcile, Health, Telemetry:
--                  internal/supervisor, the files commands.go, process.go, spawn.go, consumer.go,
--                  reconcile.go, health.go and telemetry.go; Machine is the operating system
--   Examples       a small cluster and a machine, and the theorems applied to them
--
-- How it is modelled. An action of a Go function is a `Client`: it takes a `World`, which holds the
-- database, a count of the calls made, what was logged, and what was done to processes, and gives a
-- result or an error with the new world. `Env` says, for every tick, whether a call is served, is
-- lost on the way, or is served and loses its reply; what the other processes do to the database
-- before it; and what the clock, the random source and the context say. A theorem about every `Env`
-- is about every fault and every interleaving. A Lua script runs in one call, since Redis runs it
-- atomically; an error inside a script ends it and keeps what it wrote. Two tests that the model
-- takes from the operating system (`Machine`) may differ from one tick to the next.
--
-- Bounds. A SCAN runs for at most `Env.pages` pages, and fails beyond; ScanLaws says of a server how
-- many calls are left, and with more pages than these the loop ends. The wait for a process to stop
-- looks at it `Machine.polls` times. Go's int is 64 bits and wraps. The numbers of a Lua script are
-- integers that a double holds exactly (up to 2^53), and the arguments of a script are the Go
-- integers themselves. Durations are in nanoseconds, those of the autoscaler in whole seconds. Texts
-- are bytes; JSON and white space are modelled for ASCII. Errors are told apart by their cause, not
-- by their text. Where Go walks a map, the model takes the order of first appearance, and where a
-- Go sort is not stable, the order of the input.
--
-- Of the proxy, the model takes whether each system call of a write succeeds and how the reload
-- command ends (`Host`), and keeps what was installed and run in `World.acts`. The telemetry needs of
-- a double also a product and the conversion to int (`Rate`).
--
-- Not modelled: the ticker loops around these functions and the subscription of the ingress, which
-- only call them again; the routing of requests, the text of the JSON replies and the limit on a
-- body's size, which are net/http and encoding/json; the page of the dashboard; the temporary file
-- of a configuration's write; the variants for Windows; the commands, configuration and logging (the
-- logger's entries are kept in `World.log`, its write to a stream is best effort).
pub mod Prelude
pub mod Redis
pub mod Client
pub mod Schema
pub mod Capacity
pub mod Supervisor
pub mod Scheduler
pub mod Events
pub mod Ingress
pub mod Node
pub mod Controller
pub mod Api
pub mod Examples
