-- ===== src/Manager/Registration.antt =====
-- The `SetupWithManager` methods of the two reconcilers: what they tell controller-runtime's builder.
pub mod Listed
pub mod Owned
use pgpilot_operator.Base.{String, Bool, true, false, List, [], ◌∷◌, ◌++◌, if◌then◌else◌}

-- The Go types that a controller can be about.
pub data ObjectType : Type 0 where
  monitor_type library_type config_map_type deployment_type service_type service_monitor_type :
      ObjectType

-- A call of the builder. The function that `watches` is given is `libraryToMonitors`.
pub data BuilderCall : Type 0 where
  for_type : ObjectType → BuilderCall
  owns : ObjectType → BuilderCall
  watches : ObjectType → BuilderCall
  named : String → BuilderCall

-- `PgpilotMonitorReconciler`, with its field `ServiceMonitorEnabled`, or
-- `PgpilotMetricLibraryReconciler`.
pub data Reconciler : Type 0 where
  monitor_reconciler : Bool → Reconciler
  library_reconciler : Reconciler

unfoldable pub monitor_calls : Bool → List BuilderCall
monitor_calls enabled =
    let b =
      for_type monitor_type
      ∷ owns config_map_type
      ∷ owns deployment_type
      ∷ owns service_type
      ∷ [] in
    let b1 = if enabled then b ++ owns service_monitor_type ∷ [] else b in
    b1 ++ watches library_type ∷ named "pgpilotmonitor" ∷ []

unfoldable pub library_calls : List BuilderCall
library_calls = for_type library_type ∷ named "pgpilotmetriclibrary" ∷ []

-- What the reconciler tells the builder before `Complete(r)`.
abbrev pub setup_calls : Reconciler → List BuilderCall
setup_calls (monitor_reconciler enabled) = monitor_calls enabled
setup_calls library_reconciler = library_calls
