-- ===== src/Lib.antt =====
-- oakberryio is a small platform-as-a-service: the daemon oakd boots each app in a Firecracker
-- microVM, checks its health, cuts over to it, and serves it through a Cloudflare tunnel. This
-- library models the core of oakd, of the command oak and of the guest's oak-init, and states what
-- its operations do on every path, errors included.
--
-- The parts, and the code that they model:
--   Store       internal/store/schema.sql and store.go. Db holds the tables as lists of rows, the newest
--               first. The children Apps, Releases, Machines, Ipam, Subnets, Secrets and Volumes have one
--               function for each method of Store, named as it is. Store.Ops makes a value of each
--               operation that writes, so that a history is a list of them; Store.WellFormed is the
--               schema's constraints. Table is the WHERE of SELECT, UPDATE and DELETE.
--   Net, Vm     the addresses of store.go (ipToUint32, uint32ToIP) and of net.ParseIP, and Spec and
--               MACFromIP of internal/vm/config.go.
--   Appconfig   internal/appconfig/appconfig.go: the schema of oak.toml and its validation.
--   Mmds        internal/mmds/mmds.go: the payload of a guest, its command and its environment.
--   Tunnel      internal/tunnel/tunnel.go: the configuration of cloudflared.
--   Deploy      internal/daemon/deploy.go and the Reconcile of daemon.go. World is the store, the
--               Deployer's handles and cached configurations, the random bytes to come, and the list of
--               effects on the host. Env is the Deployer's configuration and the answers of what is
--               outside the repository. Each method is an action of Effects.Exec, which returns the
--               world beside the error, as a method with a pointer receiver leaves it. Boot is
--               bootFromRelease, ReleaseCommand is runReleaseCommand, Orders is Deploy, Restart and
--               Scale, and Destroy, Watch, Reconcile, Health, Ingress, GuestEnv and Volumes are the
--               methods of these names; Launch is what the three ways to start a machine share.
--   Dns         ServeDNS and resolveLocal of internal/dns/dns.go over resolveDNS and requesterCanSee of
--               internal/daemon/bridge.go.
--   Api         internal/daemon/api.go and build.go: a handler takes World to a response and a World.
--               Auth is AuthMiddleware, Streams the orders whose progress is streamed, Secrets, Volumes,
--               Machines and Build the handlers of these, Panel handleMetrics and the ticks of daemon.go's
--               sampleMetrics. Server is the API's fields with what the handlers ask of the host.
--   Wire, Cli   the requests, responses and JSON structs, and internal/cli: Lines is bufio.Scanner,
--               Stream what the client makes of a progress stream, Calls one function for each call
--               of client.go, Transport, Ssh and Args the rest.
--   Oak         cmd/oak: Context is context.go, over a tree of files, with Context.Reference as docker's own
--               list of a build context; Flags is package flag and parseFlagsAnywhere; Deploys, Sessions
--               and Commands are the run functions of main.go, Main its switch. Shell is what a command
--               finds around it, Ran what it starts, prints and sends, and its error.
--   Host        internal/vm/vm_linux.go (Machine) and config_linux.go (Config), ensureBridge of
--               internal/daemon/bridge.go with bridge_linux.go and bridge_naming.go (Bridge), and New, Run
--               and listenUnix of daemon.go (Daemon): the calls of netlink, of Firecracker's SDK, of the
--               files and of the listeners with their errors, the last first.
--   Session     internal/daemon/ssh.go (Vsock) and handleSSHConn of cmd/oak-init/agent.go (Agent), over the
--               bytes of their connections, where the bridge's copies take turns; Relay is what the
--               turns carry, and Reaches joins the parts with the session of Oak.Sessions.
--   Extract     extractBuildContext and safeExtractPath of build.go, untarLayer and safeJoin of
--               internal/rootfs/flatten.go: the calls on the file system, the last first.
--   Init        cmd/oak-init: Boot is main.go, each step an action on the list of kernel calls with
--               their answers; Kernel is how the calls are answered; Env is helpers.go and childEnv, Reap is reap.
--   Metrics     internal/metrics/metrics.go: Parse the parsers of /proc, Sampler the method Sample.
--   Sizing      internal/daemon/sizing.go, and the number of inodes of runtime_linux.go.
--   Effects     the action type and its rules; Text, Paths and Prelude are the library calls (strconv,
--               strings, path/filepath) that the code makes, and the helpers that all share.
--
-- A deploy writes the app's configuration and a release, runs the release command in a machine of its
-- own, allocates an address and a row for the new machine, starts it, waits for its health, marks it
-- running, stops the app's other running machines, and renders the tunnel's routes from the running rows.
-- A goroutine per machine waits for its process and then calls watchMachine; its end is one step here.
-- Store methods are single steps, since the database has one connection.
--
-- oak calls the API over a Transport; the API runs the Deployer's orders and streams their progress,
-- the last line of which tells oak the outcome. In the guest, oak-init reads the payload, mounts the
-- volumes, runs the app, and prints the exit status that a release command waits for.
--
-- Bounds and fuel. A tenant subnet has the 253 hosts .2 to .254, and there are 255 tenant subnets:
-- the two loops over them are given that many rounds. awaitHealthy is given timeout / interval + 2
-- rounds, which is as many as there can be where each pause lasts the interval. Numerals are
-- printed with one round more than their value. The log of a release command is read as often as
-- `log_reads` has readings, which stands for the five seconds that the code waits. The headers of
-- an ssh response are read with as many rounds as the response has bytes. oak-init makes 20
-- attempts for its payload, and reads as many returns of wait4 as `waits` has. parseFlagsAnywhere
-- is given one round more than there are arguments, since each round takes one at least. A line of
-- a stream has less than 65536 bytes, or the scanner stops.
--
-- Not modelled: errors of the SQLite engine itself (a constraint that refuses a row is), the words
-- of error messages and of logs, contexts beyond their ending of a wait, the interleaving of two
-- requests within one method, and what lies under the calls of the host: Firecracker, netlink,
-- sockets, files, age, Docker. Of the HTTP API the routing and the static pages are left out; of
-- oak-init the listener of its ssh agent, setupDev and the forwarding of signals; of the command
-- line cmd/oakd, which reads oakd.toml and waits for signals. Rounding of floats is not modelled,
-- and text is ASCII where white space and case are concerned.
pub mod Api
pub mod Appconfig
pub mod Cli
pub mod Deploy
pub mod Dns
pub mod Effects
pub mod Extract
pub mod Host
pub mod Init
pub mod Metrics
pub mod Mmds
pub mod Net
pub mod Oak
pub mod Paths
pub mod Prelude
pub mod Session
pub mod Sizing
pub mod Store
pub mod Table
pub mod Tests
pub mod Text
pub mod Tunnel
pub mod Vm
pub mod Wire
