-- ===== src/Controller/Watch.antt =====
-- internal/controller/pgpilotmonitor_controller.go: `libraryToMonitors`.
pub mod Enqueued
pub mod Arrival
use pgpilot_operator.Base.{
  String, Bool, true, false, List, [], ◌∷◌, Result, ok, err, ◌==◌, string_eq, if◌then◌else◌,
}
use pgpilot_operator.Kube.Meta.{NamespacedName}
use pgpilot_operator.Api.Metrics.{PgpilotMetricLibrary}
use pgpilot_operator.Api.Monitor.{LibraryRef, PgpilotMonitor}
use pgpilot_operator.Controller.Cluster.{Cluster}
use pgpilot_operator.Controller.Session.{M, pure, call, attempt, ◌>>=◌}

-- The inner loop, which breaks at the first match.
unfoldable pub refers_to : String → List LibraryRef → Bool
refers_to name [] = false
refers_to name (ref ∷ refs) = if ref.name == name then true else refers_to name refs

unfoldable pub requests_for : String → List PgpilotMonitor → List NamespacedName
requests_for name [] = []
requests_for name (m ∷ ms) =
    let rest = requests_for name ms in
    if refers_to name m.spec.metrics.from_libraries
    then record { name = m.object_meta.name; namespace = m.object_meta.namespace } ∷ rest
    else rest

abbrev pub requests_of : String → Result (List PgpilotMonitor) → List NamespacedName
requests_of name (err e) = []
requests_of name (ok ms) = requests_for name ms

-- The `client.Object` that the watch hands over: a library, or an object of another type.
pub data WatchedObject : Type 0 where
  library_object : PgpilotMetricLibrary → WatchedObject
  other_object : WatchedObject

unfoldable pub library_to_monitors : (C : Cluster) → WatchedObject → M C (List NamespacedName)
library_to_monitors C other_object = pure []
library_to_monitors C (library_object lib) = do
  monitors ← attempt (call (C.list_monitors lib.object_meta.namespace))
  pure (requests_of lib.object_meta.name monitors)
