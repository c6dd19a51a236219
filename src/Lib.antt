-- ===== src/Lib.antt =====
-- A host that runs sandboxes in Firecracker virtual machines, and the gateway of several hosts.
--
-- A host keeps its sandboxes in a registry (internal/registry/registry.go), a SQLite database behind
-- one connection: rows of sandboxes, each with a tap device, a guest address and a host port from
-- fixed pools, further rows for exposed ports, which draw on the same pool of host ports, and rows
-- for snapshots. Hosts report to a gateway (internal/gateway/gateway.go) by heartbeats
-- (internal/cluster/cluster.go); from these alone the gateway keeps its tables of hosts and routes,
-- places creates, and passes requests for a sandbox on to its host.
--
-- Common        what the components share: Boolean tests, lists, counts, maps, calls that may fail
-- Registry      internal/registry/registry.go
--   Types       the structs; a row has the columns of the struct, with its times in seconds
--   Address     uint32ToIP and ipToUint32
--   Pools       Slots, pickFreeTap, pickFreeIP, pickFreePort
--   Engine      the schema of migrate and the statements, as maps of the tables; BeginTx, Commit and
--               the deferred Rollback
--   Ops         the methods of Registry, by the same names
--   Invariant, History, Lifecycle, Capacity
--               the tables over any sequence of calls
-- Gateway       internal/gateway/gateway.go
--   State       host, Gateway, and the parts of the handlers that hold the lock
--   Handlers    handleRegister, handleCreate, handleList, handleProxyByID, handleHosts, bearerAuth
--   Placement, Routing, Pruning, Recovery, Proxy, Steps
--               the tables over any sequence of locked sections
-- Guest         cmd/sandboxd/main.go and internal/agentapi/agentapi.go, the agent in a sandbox
--   Output      cappedBuffer
--   Stream      the events of handleExecStream, for every interleaving of its goroutines
--   Exec        execTimeout, workingDir, buildCmd, handleExec, handleExecStream
--   Files       the file handlers, statusForFSError, parseDim
--   Thaw        cmd/sandboxd/thaw.go: how a clone takes on its identity
-- Server        internal/server, the API server of a host
--   Heartbeat   heartbeat.go: what is reported to the gateway
--   Timeouts    ttl.go: handleSetTimeout
--   Ports       ports.go: handleExposePort, handleListPorts; Exposing has what the first does
--   Host        the registry, the table of machines and what the sandboxes hold on the host: disks,
--               taps, DNAT rules, Firecracker processes, pauses and snapshot directories; Tracks, Rules and
--               Acts have what each call does to these and which call it is
--   Sandboxes   server.go: handleCreate, handleList, handleGet, handleDestroy, destroy,
--               rollbackPreVM, shutdownAll; Elsewhere, Concerning, Standing and Spares are about what
--               the calls for one sandbox leave to the others
--   Snapshots   snapshot.go: handleSnapshot, handleRestore, handleFanout, bringUpClone, finishClone,
--               handleListSnapshots, handleDeleteSnapshot; StartClone as a sequence of calls that may fail;
--               Resuming and Finishing are about one clone of a fan-out, Sparing, BringingUp, Phases, FanningOut and
--               Fanout about all of them
--   Proxy       proxy.go: handleAgentProxy, handleShellProxy, flushWriter, waitForAgent
--   Reaping     reapExpired of ttl.go, and reconcile.go
--   Serving     Config and Serve of server.go: what is started and stopped, in which order
-- Client        internal/client/client.go: the requests of each call and what it makes of the answer;
--               Streaming has ExecStream
-- Provisioner   internal/provisioner/provisioner.go: the commands for the network, the taps, the
--               forwarded ports and the disk files
-- Config        internal/config/config.go: Config and Defaults
-- Vm            internal/vm/machine_linux.go and options.go: applyDefaults, waitAPI, fcAPI and StartClone, with
--               the requests to the API of Firecracker; Cloning and Starting are about what StartClone
--               has sent and left, Identities about what the guest's agent reads of it in MMDS
--   Machine     fcConfig, buildNetworkInterface, buildCommand, NewMachine, NewMachineFromSnapshot
--   Lifecycle   Start, StopForce, ShutdownGuest, Wait, PID, Pause, Resume, Snapshot
-- Cli           cmd/sandbox: dialClient of helpers.go, Doctor (doctor.go), Serve (serve.go,
--               gateway.go) and Commands (stopserver.go, exec.go)
-- Tests         runs at concrete inputs
--
-- The database driver is not part of the repository. Every call of it may report an error, at any
-- place: a connection has a function from the number of the call to whether it fails. A statement that
-- fails has done nothing; a transaction that does not commit is rolled back. A table is a list of
-- rows, and a constraint of the schema is a test before the insertion. Times are nanoseconds since
-- 1970 as natural numbers. Ports, slot counts and process ids are natural numbers.
--
-- Loops are structural recursion, but for pickFreeIP, whose variable is a uint32 and may wrap round: it
-- has 2^32 + 1 rounds, after which the variable has had every value. Decimal text has n + 1 rounds
-- for the number n, since each takes a digit off.
--
-- A Go map is a list of entries in the order in which a loop visits it. The gateway's create gives
-- up the lock while the host answers, so what other requests do in between is an argument of it.
-- What a host answers and the digest of bearerAuth are arguments, and so is what a command in a guest
-- writes and how it ends. The agent's pipes are lists of reads, and which goroutine's event is next is
-- a schedule; the bytes of a text are numbers.
--
-- A command of the host or the guest is its words; the model keeps which were issued, in order, and what
-- each answers is an argument. The handlers that create, restore, snapshot and destroy sandboxes count
-- instead what is held on the host. A call that takes something has one of three outcomes, by its
-- number: it is done, or refused with no effect, or it breaks off when it has taken effect. A call that
-- frees something counts as freeing it; what it failed to free is put aside. An empty path, which
-- RemoveRootfs passes over, names no file. A value that such a call returns, such as the process id,
-- is an argument. Concurrent requests and goroutines do not come between the calls of a handler, and
-- the clones of a fan-out come up one after the other. waitForAgent takes fuel; a number of rounds
-- above that of the probe after which the deadline has passed is enough.
--
-- A request to the API of Firecracker is its method, path and fields, and what it is answered is an
-- argument. Kill ends the process. waitAPI has 501 rounds: each that goes on sleeps for 10 ms, so that the 5
-- seconds of its deadline have passed after these, which it then reports as the code does.
--
-- The client has the network as a function from a request to a response, and the codecs of
-- encoding/json, net/url and bufio.Scanner as arguments.
--
-- The SDK of Firecracker, the parsers of net, the UUIDs and what the SDK answers to a machine that it is
-- asked for are arguments, and so is what doctor finds on the system. A lifecycle call of a machine
-- is what it asks of the SDK or of the process. Serve is the order of what it starts; the goroutines
-- that it starts are modelled by their own functions.
--
-- Not modelled: the opening of the database, HTTP and JSON, the patterns of the routes, the reverse
-- proxy of the standard library, the spelling of IPv4 addresses in IPv6 notation, which net.ParseIP
-- accepts, what the SDK of Firecracker does with a configuration, the shell of the guest's agent and of
-- the command line, the flags, install-agent, and the commands that print the result of one call.
pub mod Common
pub mod Registry
pub mod Gateway
pub mod Guest
pub mod Server
pub mod Client
pub mod Provisioner
pub mod Config
pub mod Vm
pub mod Cli
pub mod Tests
