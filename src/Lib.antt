-- ===== src/Lib.antt =====
-- A model of Forge, a workspace runtime that runs commands of agents in pooled containers.
--
-- A request comes in by HTTP (src/forge/server) or by the local client (src/forge/client) and is
-- served by one of the services (src/forge/services). They keep rows in an SQLite metastore
-- (src/forge/storage/meta_store.py), directories and files of workspaces on the disk
-- (src/forge/storage/workspace_store.py), lease containers from the pool (src/forge/pool) and
-- publish events on a bus (src/forge/events/bus.py).
--
-- Errors: src/forge/errors.py, the exception classes as values, and results that may be one.
-- Models: src/forge/models.py, the records that the layers pass around.
-- Events.Bus: `EventBus` with `publish` and the start, the steps and the end of `subscribe`.
-- Storage.Rows: tables as lists of rows, and what the SQL statements of the metastore do.
-- Storage.MetaStore: the store, connections, `_iso`, `_parse_iso` and the workspaces. Its children
--   are Executions, Ledgers (snapshots, artifacts, scopes, pool events), Integrity (what every
--   method keeps) and Laws (what a reader sees).
-- Storage.WorkspaceStore: `_validate_workspace_id`, `path`, `create`, `delete` and `exists`.
-- Pool.Defs: `_SubPool`, and the pieces of `_acquire`, `_release`, `_warm` and `stats` between two
--   awaits, each as a function of the sub-pool.
-- Pool.Tasks, Pool.System: the coroutines as tasks that stop at each `await`, and the runs of any
--   number of them in any order, beside passes of `_warm`; Turns, Safety, Lock and Lost prove what
--   holds in every run, Progress and Overshoot that some runs exist.
-- Pool.Lifecycle: the dictionary of sub-pools, `start`, `shutdown`, `stats`, and what a session of
--   src/forge/pool/lease.py calls the driver with.
-- Pool.Reaper: `_reap_once` for one sub-pool; what other tasks do to the sub-pool while the reaper
--   awaits the driver is an argument. Trim, Order and Races are about it.
-- Storage.SnapshotStore, Storage.ArtifactStore: archives of workspaces and exported files.
-- Services.World: the state that services share, and sequences of calls that may raise.
-- Services.Workspaces: `WorkspaceService`, with Sync about directories and rows.
-- Services.Executions: the helpers of `ExecutionService`; Exec has `exec`, `get` and `list`, Steps,
--   Outcome, Retry and Blocked are about it.
-- Services.Snapshots with Restore, Services.Artifacts: `SnapshotService` and `ArtifactService`; Sync
--   is about the archives and their rows, RoundTrip about an export and the reading of it.
-- Strings: `str` and `bytes` of Python as the code uses them: Lines, Replace and Utf8 with
--   Decode.
-- Services.Files: `FilesService`. Paths and Host are paths and the disk, Ops has the operations, and
--   Search `glob` and `grep`; Service is the whole as an interface of Server.State. Host.Safe,
--   Resolved, Confined, Kept, WriteRead, Uploads, Pages, Editing, Found and Leaks are about them.
-- Drivers.Docker: `DockerDriver`. Containers are created, checked and destroyed, Exec runs commands,
--   Limits has the host configuration; Rollback and Output are about them.
-- Langchain: the operations of `ForgeSandbox` on the local client.
-- Client.Transport: `ForgeTransport` of src/forge/client/sdk.py, and its calls as data. Client.Local is
--   `LocalClient`, Client.Http is `HTTPClient`, and Client.Agreement is about the two. Client.Sdk is the
--   facade, with Uploads about files that go through all layers.
-- Client.Streams: the stream of events of src/forge/server/routes/executions.py and `subscribe` of
--   `HTTPClient`; Delivery is about both. Client.Errors: how the exceptions of
--   src/forge/server/app.py come out of `HTTPClient`.
-- Config: `pool_config_for`. Server: the status codes of exceptions in src/forge/server/app.py; State
--   has the interfaces of the services that routes and clients call, Wire what goes over HTTP, Routes
--   the handlers of src/forge/server/routes, Routing the table of routes, Order is about it.
-- Base: what these share. The modules named Examples have runs and the theorems at concrete states.
--
-- SQLite, Docker, asyncio and the operating system are not code of the repository. To the pool,
-- what the driver answers is the event that a task waits for, or an argument. What it makes of
-- `destroy_environment` does not show in the pool, which suppresses its exceptions. Environments
-- that it creates have ids that no sub-pool knows, and `time.monotonic_ns()` gives placeholders
-- that differ from the slots in use. SQLite keeps primary keys, the unique index, references and
-- `ON DELETE CASCADE` as the schema in src/forge/storage/migrations.py declares them. The system
-- calls of the workspace store, the clocks, `uuid4` and arithmetic on floats are arguments. Times
-- are natural numbers. A session of the pool is an argument of `exec`: it yields a result or
-- raises, and changes the world in a way of its own; theorems that need the metastore to stay as it
-- is meanwhile say so.
--
-- The files service stands on a disk that maps paths to files, directories and symbolic links, which
-- hold where they lead, and do not lead in a circle. `Path.resolve`, the names in a directory, the
-- visits of `os.walk`, base64, regular expressions and `fnmatch` are arguments, and theorems say
-- what they need of them.
-- Permissions and a full disk are left out there, and the services for workspaces, executions and
-- snapshots see the files of a workspace without the directories between.
--
-- Pydantic, JSON and httpx give back what they were given: a body is the model that its JSON stands for,
-- and a column of a table holds the value that its JSON or text stands for, so that a model and its row
-- are one record. A stream whose generator raises when the status has been sent is cut, which httpx
-- reports by an exception of its own.
-- What an id becomes in a URL is an argument, and so is the framework that chooses a route: theorems
-- say that it calls the handler of the only route that answers.
--
-- The answers of the Docker daemon to the calls of the driver are arguments, too.
--
-- Loops over lists are recursive on them, a pass of `_warm` on its number of rounds, and the loop
-- of `_acquire` is a run of a task. Fuel stands in three places: the loop over the frames of a buffer
-- is given its length, of which each frame takes some, `pieces` of an exported file may be as many
-- as its bytes, and the look-up of a handler goes through at most four classes, of which no
-- exception has more.
--
-- Not modelled: messages of exceptions, payloads of events, logging, the columns that fields of a model
-- are written to, tasks beside a shutdown of the pool, the reaper in the runs of tasks (it is by itself,
-- with what others do as an argument), what starts and stops the daemon and the clients, a network that
-- fails, the command line, and the creation of sandboxes for langchain.
pub mod Base
pub mod Errors
pub mod Models
pub mod Strings
pub mod Events
pub mod Storage
pub mod Pool
pub mod Drivers
pub mod Services
pub mod Config
pub mod Server
pub mod Client
pub mod Langchain
