-- ===== src/Lib.antt =====
-- pgpilot-operator: a Kubernetes operator that runs one pgwatch collector for each PgpilotMonitor.
--
-- The program. A monitor names a database, the metrics to collect and the sinks to serve
-- (api/v1/pgpilotmonitor_types.go); a PgpilotMetricLibrary is a set of metric definitions that
-- monitors share (api/v1/pgpilotmetriclibrary_types.go). The monitor's controller
-- (internal/controller/pgpilotmonitor_controller.go) reads a monitor, keeps its finalizer, looks for
-- its credentials, reads its libraries, and lets the builder (internal/builder) make a ConfigMap, a
-- Deployment, a Service and, where prometheus-operator is installed, a ServiceMonitor; it applies
-- them one after the other and then writes the monitor's status. A changed library enqueues the
-- monitors that name it. The library's controller
-- (internal/controller/pgpilotmetriclibrary_controller.go) writes a condition into its status.
--
-- The files.
--   Base      Go's errors, maps, integers and their decimal text; names that all parts share.
--             `atoi` and `decimal` are strconv.Atoi and the verb %d.
--   Kube      the types of k8s.io/api and k8s.io/apimachinery, with the fields that the operator sets.
--   Api       the two resources, struct by struct; and api/v1/zz_generated.deepcopy.go. Layout: the
--             structs as they lie in memory. Memory: a heap of cells, and the copies of pointers,
--             slices and maps. DeepCopy: DeepCopyInto of each type; DeepCopy/Pointers: DeepCopy and
--             DeepCopyObject; DeepCopy/Holds: what a struct in memory holds.
--   Builder   a module for each file of internal/builder, and one for each part of configmap.go:
--             Sources (renderSources, buildConnStr), MetricsFile (renderMetrics), Hash
--             (contentHash), ConfigMap (BuildConfigMap). A Go map is an association list `Dict`,
--             met in the order of the list. A call that dereferences nil returns none.
--             Proofs: Wiring, Rollout, Collected, Secrecy, Ignored (settings without effect), and
--             modules below a builder's own. Alike: inputs that differ in the order of the entries
--             of their maps. Hash/Canonical: the Go map itself, as the quotient of its lists by
--             order.
--   Controller
--             Cluster: the API server and the helper libraries, as a record of functions over a
--             world that every call may change. Session: one run as a state monad that records
--             each write and each event and tells a value, an error and a panic apart. Client:
--             patchStatus, serverSideApply and setCondition. Checks: validateCredentials and
--             resolveLibraries. Monitor: Reconcile, with a definition for each of its steps.
--             Watch: libraryToMonitors. MetricLibrary: the library's Reconcile. Triple: rules for
--             what an action sends; Triple/Status: the retried write of a status.
--             Monitor/Progress: the order of the requests. Monitor/Outcome and Monitor/Contract: a
--             whole run. Monitor/Report: the status that ends it. Monitor/Statuses: what a whole
--             run says in its statuses and events, and Monitor/Statuses/Account what each of its
--             requests is sent for. Monitor/Steady: runs that find nothing changed.
--             Monitor/Liveness: a run that meets no refusal. History: both controllers and the
--             watch at work, as a step relation.
--   Manager   cmd/main.go and the registration of both controllers. Flags, Servers (the options of the
--             webhook server and of the metrics server), Scheme (api/v1/groupversion_info.go and the
--             `init` functions), Registration (SetupWithManager), Platform (the calls of
--             controller-runtime and client-go, and how a process ends), Startup (`main`).
--   Tests     the theorems at concrete inputs.
--
-- Parameters. `Library` holds the YAML encoders and decoder, SHA-256 in hexadecimal, the whole
-- seconds of a duration and the verb %q. `Cluster` holds the client, the clock, controllerutil,
-- meta.SetStatusCondition and retry.RetryOnConflict. `SchemeLibrary` holds the schemes of the
-- libraries, `Platform` what answers the calls of `main`, and `Foreign` the deep copies of other
-- packages. The theorems that rely on a documented behaviour name it: `IsLawful` (the retry runs
-- the function until it meets no conflict or gives up; a condition that is set can be found, and
-- the others stay), `YamlIsNulFree` (an encoder escapes NUL), `SortsKeys` (an encoder sorts the
-- keys of a map), digests of twelve characters or more, `IsForeign` (those deep copies are good),
-- `IsClosed` (a preset of the registry names metrics of the registry), and `Serves` (the API server
-- grants every request). That the API server answers, accepts or refuses a request is stated as: it
-- does so in some world.
--
-- Bounds. All loops run over lists, so no fuel is needed. Ports are unbounded integers, since the code
-- only compares and prints them; `atoi` fails outside the range of a 64-bit int, as the source does.
--
-- Not modelled: logging; the parsing of flags; the content of the embedded metrics.yaml; the
-- validation rules of the CRDs, which the API server checks. A range loop over a map meets the
-- entries in the order of the list, which stands for any order. The runs of a history follow one
-- another; what other clients and the other controller do during a run is in the answers, which may
-- come from any world.
pub mod Base
pub mod Kube
pub mod Api
pub mod Builder
pub mod Controller
pub mod Manager
pub mod Tests
