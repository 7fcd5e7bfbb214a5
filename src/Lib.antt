-- ===== src/Lib.antt =====
-- Krustlet: a Kubernetes node agent (kubelet) that runs WebAssembly modules. A pod that is scheduled
-- to the node becomes a state machine: its states ask the device plugin manager for devices, the
-- store for modules, and the volumes for mounts, wait with a backoff where this fails, and run the
-- containers. The modules, and the code that each is about:
--
-- Prelude      Boolean tests, equality with instances, lists, the result type, maps as association
--              lists (Dict), `parse::<usize>` (Text)
-- Backoff      crates/kubelet/src/backoff/mod.rs: ExponentialBackoffStrategy, a duration being its
--              nanoseconds
-- Devices      crates/kubelet/src/resources/device_plugin_manager: Types (the maps and messages),
--              PodDevices (pod_devices.rs), Manager and Allocate (manager.rs: do_allocate,
--              do_allocate_for_pod, devices_to_allocate), Plugin (plugin_connection.rs, the
--              registration in mod.rs and manager.rs), NodePatcher (node_patcher.rs), Names
--              (crates/kubelet/src/resources/util/mod.rs)
-- Reference    crates/oci-distribution/src/reference.rs: try_from, whole, split_domain
-- Container    crates/kubelet/src/container/mod.rs and status.rs: PullPolicy, ContainerKey, maps by
--              name, Status
-- Volume       crates/kubelet/src/volume: Files (configmap.rs, secret.rs, hostpath.rs), Modes and
--              Claims (persistentvolumeclaim.rs), Refs (mod.rs)
-- States       crates/kubelet/src/state/common and crates/wasi-provider/src/states/pod: the pod
--              state, and the `next` of every state; `run_state` runs one state
-- ContainerStates  crates/wasi-provider/src/states/container: the `next` of each state of a container
-- Pod          crates/kubelet/src/pod/mod.rs and status.rs, patch_container_status of
--              crates/kubelet/src/container/status.rs
-- Config       crates/kubelet/src/config.rs: ConfigBuilder, with_override, build; Sources (flags, file,
--              host, the new_from functions)
-- PluginWatcher  crates/kubelet/src/plugin_watcher/mod.rs: PluginRegistry, handle_create,
--              handle_delete, run
-- Log          crates/kubelet/src/log/mod.rs: tail, stream_to_end, stream
-- Store        crates/kubelet/src/store: LocalStore over FileStorer, FileSystemStore, CompositeStore;
--              Served puts it over the client of Registry
-- Registry     crates/oci-distribution/src/client.rs: pull, pull_manifest, fetch_manifest_digest,
--              over the answers of a registry; Types (the data), Auth (addresses, tokens, and
--              client_protocol for crates/kubelet/src/config_interpreter.rs)
-- Tests        runs of the theorems at concrete inputs
--
-- State is passed: an operation that changes a shared map takes it and returns it, beside its result
-- where what it changed is kept on an error. A task runs its operation from call to return with no
-- other in between. A hash map is an association list; where the code iterates over one, the order is
-- that of the list. Answers of the Kubernetes API, of device plugins, of the registry, of the file
-- system and of the containers are arguments, as are the captures of the regular expressions. A
-- panic is an error of type Panic. `usize` has 64 bits.
--
-- No loop needs fuel: the status loop of Pod counts the 5 retries and the 10 polls of the source
-- down, `stream` follows a log for a number of rounds, and every other loop is over a list that the
-- caller holds or a stream that is given whole.
--
-- Not modelled: the HTTP and gRPC traffic, the operator and its watchers, bootstrapping, the web
-- server, pushing to a registry, the node and its lease, the wasmtime runtime, and the copy of
-- mio_uds_windows, which is another project's library.
pub mod Prelude
pub mod Backoff
pub mod Devices
pub mod Reference
pub mod Config
pub mod Container
pub mod Volume
pub mod States
pub mod ContainerStates
pub mod PluginWatcher
pub mod Pod
pub mod Registry
pub mod Store
pub mod Log
pub mod Tests
