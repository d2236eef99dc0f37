-- ===== src/Lib.antt =====
-- cfwg: a program that registers a device at Cloudflare WARP, sets up a WireGuard tunnel and the
-- routes for it, and serves a SOCKS5 proxy whose traffic goes through the tunnel.
--
-- The parts, and the files that model them:
--
-- - internal/app/app.go (App): one run. It loads the settings and the state, sees to a device,
--   sets up the network, starts the proxy, waits until it is told to stop, and takes everything
--   down; a failed run with the credentials of an old device is tried again with a new one. The
--   record `Dependencies` is the Go struct: each dependency is a function of all calls before, so
--   that it may answer differently each time. A run gives its result and its history, the newest
--   call first. App/New is NewApp. App/Shutdown has the end of a started runtime, App/Order the
--   order of calls in a whole run, App/Retry the second attempt, App/States the states in a run.
-- - internal/config/config.go (Config, Config/Auth): the settings from the environment, which is
--   a function from names to texts.
-- - internal/state/state.go (State): the record of the device. State/Store has Load and Save
--   over a file system, State/Store/Atomic what a save leaves.
-- - cmd/warp-socksd/prober.go (Prober, Prober/Rounds): the check of the tunnel.
-- - internal/warpapi/client.go (Warp): the data that the WARP service gives. Warp/Client has the
--   requests (Client.Register and the others); Headers: what each request carries; Refused: what
--   doJSON makes of an answer.
-- - cmd/warp-socksd/legacy_backend.go: Legacy/Device (stateFromWarpDevice and the tunnel
--   protocol), Legacy/Endpoint (the addresses of the peer), Legacy/Bootstrap (EnsureDevice over a
--   service that is given by the record `WarpApi`, with the calls as the state; Usable: what it
--   returns; Calls: how often it calls; Named: which device it names; Down: where each call
--   fails), Legacy/Network (the network manager over the interfaces of the device and the routes,
--   which share a state of any type). Legacy/Service makes the HTTP client of Warp/Client that
--   service, as newWarpAPIClientFunc of runtime_backend.go does; Tokens: the requests of a whole
--   bootstrap; Offline: a bootstrap where nothing answers.
-- - internal/router/router.go (Routes, Router): BuildPlan, and Apply and Cleanup over a runner of
--   commands. Router/Original has the remembered routes, Router/Commands the commands of a good run.
-- - internal/wgdev/device.go (Wgdev): Apply and Delete over the same runner, and the temporary
--   file. Wgdev/Files has the file, Wgdev/Commands the commands of a good run.
-- - internal/system/runner.go (System): commands, runners, and the programs made of them.
-- - internal/process/socks5_supervisor.go, internal/process/common.go (Process): the supervisor
--   of the proxy process with its mutex. Process/Lock and Process/Exit have the theorems on whole
--   calls. Process/Interleaved has the sections under the mutex and the goroutines of the
--   processes as steps in any order, with the relations `Step` and `Reachable` (Calls: what each
--   section does; Single: how many processes run; Whole: Start is its first section and the
--   wait). Process/Ready is the loop of waitForTCPReady.
-- - internal/runtime/status.go and internal/health/server.go (Health): whether the program is
--   ready, and the endpoints. Health/Ready has them beside a run of the application.
-- - internal/socks5/server.go: Socks5/Conn (a connection as the bytes that come and those that
--   have been sent), Socks5/Wire (the constants), Socks5/Auth (negotiateAuth), Socks5/Request
--   (readRequest, writeReply), Socks5/Handler (handleConn and what it calls; Login: who is
--   served; Connected: a client that follows the protocol; Owned: the associations that are
--   left; Lifetime: how long they stand), Socks5/Udp (parseUDPPacket, buildUDPReply), Socks5/Associations (the table of UDP
--   associations and its calls; Refines: the table as a map; Invariant, Matching and
--   Owned: what the calls keep), Socks5/Datagram (handleUDPPacket; Reply: where a reply
--   goes), Socks5/Listener (NewServer, Start, Close) and Socks5/Service (acceptLoop and udpLoop
--   with their handlers as steps in any order: a datagram has a step for each section of its
--   search under the mutex and one for the reply after its wait, which reads the address of the
--   shared association as it then is; Safe: who is served; Replies: who is answered).
-- - internal/socks5/config.go: Socks5/Client (clientHandshake, clientConnect), and against the
--   server Socks5/Client/Interop and Socks5/Client/Target; Socks5/Client/Dialer
--   (Dialer.DialContext; Closed: its connection; Proxied: a dial that meets the server);
--   Socks5/ProxyFile (the settings of the proxy process, written and loaded).
-- - cmd/warp-socksd/main.go and runtime_backend.go: Main (the settings; Usable: which
--   environments give some), Main/Proxy (the proxy's file, process and client; Credentials: the
--   way of the credentials through them; Ended: what is open in the end), Main/Wiring
--   (newRuntimeApp, buildRuntimeDependencies and buildLegacyRuntimeDependencies, which put the
--   parts together; Applied: what the wired program sets up), Main/Command (runWithEnv and
--   healthcheck; Outcome: what a run comes to).
-- - Of Go's library: Net/Decimal (strconv), Net/HostPort (SplitHostPort, JoinHostPort), Net/Ip
--   (the bytes of addresses), and in Base texts as lists of bytes, errors, results and maps.
--
-- What stands for code outside: `IpText` is the text form of IP addresses and `IsLawful` its
-- documented laws; `GoText` has what depends on Unicode or on the syntax of addresses (TrimSpace,
-- ToLower, EqualFold, netip.ParseAddr); `RouteText` has the text of a prefix and the JSON of the ip
-- command; `Runner` answers a command, given all commands before; `TempFile` is the file system
-- under a temporary file; `Host` has paths, the program's own path and the host of a URL;
-- `FileJson` and `Http` are encoding/json and net/http; `Randomness` is the key pair, the id and
-- the time of a registration; `Dial` is the dialer of the server and `Network` the sockets to the
-- targets of datagrams, for which `clients` has what the other goroutines make of the associations'
-- addresses. What the calls of a part meet is a record of that part: `StartWorld`,
-- `StopWorld` and `Rounds` of the supervisor, `SaveWorld` and `WriteWorld` of the files, `World` of
-- the prober, `ListenWorld` and `CloseWorld` of the server's sockets, `DialWorld` of the dialer,
-- `CommandWorld` of the main program, with `Benign` for the errors that it lets pass, and
-- `Surroundings` of a wired run, by the calls before. Each is an argument, and the module Tests has
-- a concrete one where a theorem needs it.
--
-- Numbers: a byte is a number, and a conversion to a byte or to 16 bits has its remainder written
-- out; a Go int is the type ℤ of Net/Decimal where it can be negative. Three definitions run on
-- fuel: the decimal digits of a number, which get one more than the number, and the loops of the
-- prober and of waitForTCPReady, which get one more than the number of rounds within their window.
-- Every function is total; a panic of Go is an outcome of its own in Socks5/Udp, and a wait for a
-- mutex that is never unlocked is one in Process.
--
-- Not modelled: the copying of bytes between a client and its target, which is input and output;
-- signals and the exit code; the making of a random id; legacyConnectivityProber and
-- newHTTPProxyClient, which nothing calls; log lines; contexts and deadlines, but for the deadline
-- of the dialer. The handler of a connection runs up to the
-- copying as one step, since it meets other goroutines only where it stores its association.
pub mod App
pub mod Base
pub mod Config
pub mod Health
pub mod Legacy
pub mod Main
pub mod Net
pub mod Prober
pub mod Process
pub mod Router
pub mod Routes
pub mod Socks5
pub mod State
pub mod System
pub mod Tests
pub mod Warp
pub mod Wgdev
