-- ===== src/Lib.antt =====
-- A model of the container engine pouch, with the theorems that make its parts correct. Paths are
-- from the repository's root.
--
-- The engine keeps a `Container` object for each container; the manager of daemon/mgr acts on it under
-- the container's lock, on behalf of the HTTP API, the CRI service and the exit hooks of the containerd
-- client. The container's output goes through log drivers, buffered if so configured.
--
-- Prelude: shared names and lemmas. `Text` is a Go string as its code points, with the functions of the
-- packages strings and unicode that the engine calls; `Dict` a Go map with string keys as an
-- association list (iteration order is not specified in Go, and no theorem rests on it); `ℤ` with
-- `int64` the wrap-around of int64.
-- Container: daemon/mgr/container_state.go (State), the tables of `ContainerManager` and the lookup of
-- container_utils.go (Manager), and container.go: the parts (Lifecycle) and the operations
-- (Operations): Start, Stop, Kill, Restart, Pause, Unpause, Rename, Remove, exitedAndRelease. A method
-- is a function from the manager's tables to a result and new tables. A pointer to a container is its
-- ID. What the runtime, the network and volume managers and the disk answer is the argument `Env`.
-- LogBuffer: daemon/logger/logbuffer: the linked queue on a store of elements (list.go), RingBuffer
-- (ringbuff.go) and LogBuffer (logbuff.go). The element that sync.Pool hands out is an argument, and
-- the inner log driver a parameter.
-- Kmutex: pkg/kmutex: every method, and the tick of the goroutine that New starts. A caller that waits
-- is split into entering and waking, so that interleavings are sequences of steps.
-- Reference: pkg/reference: the four implementations of `Named` and `Parse`; the regular expressions
-- are scanners (Regexp). Whether `digest.Parse` takes a digest is the argument `valid`.
-- ImageStore: daemon/mgr/image_store.go: the four indexes of `imageStore`, its set of image IDs and its
-- cache, with every method. The trie of the IDs is the list of its keys.
-- RequestCache: cri/stream/request_cache.go: the cache in which the CRI server keeps a streaming request
-- until its token is used. The clock and the random source are arguments; the tokens (Token) are the
-- base64 of six bytes.
-- Opts: apis/opts: the settings of the environment (Env, with mergeEnvSlice of
-- daemon/mgr/container_utils.go), devices, binds, restart policies and quotas. An error is `none`, and
-- a panic a result of its own.
-- Quota: storage/quota: how quota IDs are handed out (Quota), what is read in /proc/mounts (Mounts), the
-- calls of the two drivers (Apply, Enforce) and the functions of quota.go. The host's programs and its
-- file system are the record `Host`, and what a call has changed before an error stays changed
-- (`Task` of Prelude/Task).
-- Volume: storage/volume and daemon/mgr/volume.go: the volumes, the drivers as a record of calls with
-- their table, the core (Core), its list (Listing), the manager (Manager), and the driver of local
-- directories (Local). A call of the core holds the lock of the volume's name and is one step; `Attach`
-- of the manager is two, so that calls which overlap are sequences of steps. The store is a map that may
-- fail; a plugin is a driver that the host gives.
-- Storage: daemon/mgr/container_storage.go: the mount points of a container (Places, Binds, Mounts), over
-- records of what the volume manager and the host answer (Services, Quotas), and the disk quotas of
-- them (Quotas). Managed puts the volume manager of Volume in the place of that record.
-- `FindString` of a regular expression is an argument, which tells where it does not compile.
-- Validation: daemon/mgr/container_validation.go: `validateResource` as steps that reset a control the
-- host does not support or refuse a value, and (Nvidia, Config) the rest of `validateConfig` on the settings of a
-- container. What the host supports and has is an argument.
-- Cri: cri/v1alpha2/cri_utils.go: the names (Names) and labels (Labels) that stand for sandboxes and
-- containers of Kubernetes, their resources (Resources), security contexts (Security), mounts and annotations
-- (Config), and what the kubelet sees of them (Convert, Lists). `time.Parse` is an argument. The records for
-- the protocol have the fields that are read.
-- Scheduler: pkg/scheduler/scheduler.go: the choice of a factory by the values that the pool's
-- factories return, which are the argument.
-- Filters: apis/filters/parse.go: the arguments of filters, their parser and what they match;
-- `unicode.ToLower` is an argument.
--
-- Loops recur on the list or the count that they run over. Two take fuel: the search of
-- `GetNextQuotaID` has one turn more than its table has IDs, which suffices, as a theorem shows, and the
-- printing of a number has 20 turns, as many as a uint64 has digits.
--
-- Not modelled: the code that only passes calls on (the HTTP server, the command line, the client), the
-- containerd client, the calls of the CRI service behind its conversions, and the creation of containers and their OCI specification, which talk to the
-- kernel and to containerd at every step.
pub mod Prelude
pub mod LogBuffer
pub mod Kmutex
pub mod Container
pub mod Reference
pub mod ImageStore
pub mod RequestCache
pub mod Opts
pub mod Quota
pub mod Storage
pub mod Validation
pub mod Volume
pub mod Scheduler
pub mod Filters
pub mod Cri
