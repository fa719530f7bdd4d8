-- ===== src/Lib.antt =====
-- A verification library for the QRX Node Suite agent (agent/).
--
-- The agent keeps the releases of each component of a node on disk, fetches signed manifests, installs
-- new versions and goes back to old ones, chooses the adapter for the node's version, watches the
-- node's health and raises alerts. The parts and the files that model them:
--
-- Prelude, Errors, Exec: shared names; the sentinel errors of the packages (Err, the text around a
--   wrapped error dropped); methods that change state and may fail (Exec: what was written before an
--   error stays written). Exec/Wp has a rule for each way to build such a method.
-- Store: agent/updates/store. A store is its component's name, the disk (the pointers current, previous
--   and staged, and the release directories) and a schedule that says which calls of the operating
--   system fail; a theorem over every store covers every pattern of failures. stage is Stage, promote
--   Promote, and so on; Store/Prune has InstalledVersions and Prune. Store/Steps has a rule for each
--   primitive step, Store/Live the invariant on the releases that the pointers name,
--   Store/Tied what they can become while one version is installed.
-- Version: agent/version. SemVer and Range are semver.go on lists of code points (the two regular
--   expressions are scanners), Matrix is compatibility.go, Profile is profile.go with
--   CheckSwitchSafety of agent/updates/qrx_core.go.
-- Manifest: agent/updates/manifest. canonical_payload is CanonicalPayload; Manifest/Verify has the
--   checks of verify.go over a record of the cryptographic and time functions of Go's library.
-- Policy: agent/updates/policy.go over agent/storage/settings.go. A row's key is a prefix and its
--   rest, a structured value stands for its JSON text.
-- World: what an update of one component reads and writes: the settings, its store, the history and the
--   audit log, with a schedule that says which calls of the database, of a controller or of the source
--   fail. World/Ends, World/OnDisk and World/Turns have a rule for each step, World/Yields one for each step
--   where no call fails.
-- BootGuard: agent/updates/bootguard.go over that world. BootGuard/Restore joins it with Install.
-- Guardian: agent/guardian/guardian.go. A run is an indexed type of ticks at times that never go back.
-- Alerts: agent/alerts/alerts.go over agent/storage/alerts.go. Events: agent/events/bus.go, a queue for
--   each subscriber's channel. Adapters: agent/adapters/registry.go over calls of the adapters that
--   succeed or fail by a schedule.
-- Updates: agent/updates. Updates/Install is Install of manager.go, cut into its gates and its steps;
--   Updates/Check is Check and Plan, Updates/SelfUpdate is selfupdate.go; rollback.go and
--   compatibility.go are in Updates itself. The manager's source (the manifest of a channel and the bytes
--   of an artifact), its controllers and the clock are fields of a record.
-- QrxCore: agent/updates/qrx_core.go over the same world.
-- Storage: agent/storage/migrate.go. The schema is the list of the scripts that took effect.
-- Node: the snapshot of the node, from agent/models, agent/api/cache.go and agent/adapters/adapter.go.
-- Poller: agent/cmd/agentd/poller.go, one tick of which joins Guardian, Events and Alerts; what the
--   adapter and the clock answer during a tick is a record.
-- Config: agent/config/migrate.go, over any list of migrations and a record of the JSON library.
-- Api: agent/api/auth.go and agent/api/hostcheck.go, over a record of the net package.
-- QrxCli: agent/qrx/fields.go, over a record of the JSON library; QrxCli/Runner is agent/qrx/runner.go over a
--   record of the process.
-- Qrx007, Legacy006: the adapters of agent/adapters. The session of an adapter is what it keeps between its
--   methods; Qrx007/Reports and Qrx007/Gated build what it reports (Node/Reports) of the answers.
-- Server: agent/api. Server/Http has what the handlers share, Server/Updates and Server/Status the handlers,
--   Server the routes and their guards. The parts behind the API are a record of operations on any state;
--   Server/Agent fills it with the manager of Updates, a store for each component.
-- Components: agent/updates/components. Components/Extract unpacks an archive into a list of the calls of the
--   file system, Components/Profiles starts a compatibility profile, Components has the health checks.
-- Monitoring: agent/monitoring/linux.go over the lines of the files that it reads; a uint64 is a number
--   below 2 ^ 64, whose arithmetic wraps around.
-- Sources: agent/updates/sources, over a record of the network, the file system and Go's JSON decoder;
--   Sources/Build is the choice of agent/cmd/agentd/sources.go.
--
-- Fuel: MigrateRaw of Config gets one round more than there are versions, which is enough where
-- every migration leads to a later version; the decimal digits of a number are written with as much
-- fuel as the number and one more, which is enough as each digit divides it by ten; all other
-- recursion is structural. Times are natural numbers of nanoseconds, versions are natural numbers
-- that saturate where strconv.Atoi does.
--
-- Not modelled: the HTTP protocol and the stream of events, processes, the SQL driver, the JSON codec,
-- the mock adapter, the float tests of the default alert rules, the files of the dashboard over HTTP,
-- the detection of the node's version at the start, the calls of systemd, and the reads of the
-- temperature, the throttling and the uptime of the host.
pub mod Prelude
pub mod Components
pub mod Config
pub mod Errors
pub mod Exec
pub mod Version
pub mod Server
pub mod Sources
pub mod Storage
pub mod Store
pub mod Manifest
pub mod Monitoring
pub mod Node
pub mod Policy
pub mod Poller
pub mod Guardian
pub mod Events
pub mod Api
pub mod Alerts
pub mod Adapters
pub mod BootGuard
pub mod QrxCli
pub mod Qrx007
pub mod Legacy006
pub mod QrxCore
pub mod Updates
pub mod World
